-- ===== src/Sql/Scanner/Sound.antt =====
-- What the scanner accepts is made of the pieces of `Lexes`, and its tokens are their words.
use mathlib.Core.Path.{subst}
use summerrs_admin.Base.{
  ℕ, zero, suc, ◌+◌, ◌-◌, ◌≡◌, ◌⊎◌, refl, ap, sym, ◌∙◌, Option, none, some, List, [], ◌∷◌, ◌++◌,
  ◌==◌, arith, length, if◌then◌else◌, Bool-cases, inl, inr, ==_iff,
}
use summerrs_admin.Base.Text.{Bytes, codes, starts_with, Without}
use summerrs_admin.Sql.Scanner.{
  SqlResult, ok, err, ScanState, normal, single_quoted, double_quoted, line_comment, block_comment,
  dollar_quoted, lowercase, drop, has_at, Round, go, quoted_round, close_comment, scan_round,
  prepend, after_round, at_end, scan, collect_sql_tokens,
}
use summerrs_admin.Sql.Scanner.Lexes.{
  Quoted, close, twice, plain, Commented, nest, unnest, last, inside, Tagged, found, before, Lexes,
  end, last_line, line, comment, string, identifier, dollar, word, other,
}
use summerrs_admin.Sql.Scanner.View.{
  View, line_view, comment_view, string_view, identifier_view, dollar_view, stop_view, word_view,
  other_view, normal_round-View, starts_with_sound, has_at_sound, ne_of,
}

abbrev Loop : Type 0
Loop = ScanState → Bytes → Option (SqlResult (List Bytes))

-- What is left to read in a state.
abbrev Tail : ScanState → Bytes → List Bytes → Type 0
Tail normal s ts = Lexes s ts
Tail single_quoted s ts = (r : Bytes) × Quoted b'\'' s r × Lexes r ts
Tail double_quoted s ts = (r : Bytes) × Quoted b'"' s r × Lexes r ts
Tail line_comment s ts =
    (Without b'\n' s × (ts ≡ []))
    ⊎ ((c : Bytes) × (r : Bytes) × (s ≡ c ++ b'\n' ∷ r) × Without b'\n' c × Lexes r ts)
Tail (block_comment depth) s ts = (r : Bytes) × Commented depth s r × Lexes r ts
Tail (dollar_quoted tag) s ts = (r : Bytes) × Tagged tag s r × Lexes r ts

prepend_inv :
    (pushed ts : List Bytes) (o : Option (SqlResult (List Bytes)))
    → prepend pushed o ≡ some (ok ts)
    → (ts' : List Bytes) × (o ≡ some (ok ts')) × (ts ≡ pushed ++ ts')
prepend_inv pushed ts none h = cc
prepend_inv pushed ts (some (err e)) h = cc
prepend_inv pushed ts (some (ok ts')) h = (ts', refl, cc)

-- A loop that is right about what it accepts.
abbrev IsSound : Loop → Type 0
IsSound loop =
    (state : ScanState) (s : Bytes) (ts : List Bytes)
    → loop state s ≡ some (ok ts)
    → Tail state s ts

module _ (loop : Loop) (sound : IsSound loop) where
  went_on :
      (state : ScanState) (s : Bytes) (ts : List Bytes)
      → prepend [] (loop state s) ≡ some (ok ts)
      → Tail state s ts
  went_on state s ts h =
      let (ts', e, same) = prepend_inv [] ts (loop state s) h in
      subst (Tail state s) (sym same) (sound state s ts' e)

  Lexes-line :
      (s r : Bytes) (ts : List Bytes) → s ≡ codes "--" ++ r → Tail line_comment r ts → Lexes s ts
  Lexes-line s r ts e (inl (bare, none_left)) =
      subst (Lexes s) (sym none_left) (last_line s r e bare)
  Lexes-line s r ts e (inr (c, r', split, bare, more)) =
      line s c r' (e ∙ ap (λ t. codes "--" ++ t) split) bare more

  View-Lexes :
      (b : ℕ) (s : Bytes) (ts : List Bytes) {r : SqlResult Round}
      → View b s r
      → after_round r loop ≡ some (ok ts)
      → Lexes (b ∷ s) ts
  View-Lexes b s ts (line_view r e) h = Lexes-line (b ∷ s) r ts e (went_on line_comment r ts h)
  View-Lexes b s ts (comment_view r e) h =
      let (r', inner, more) = went_on (block_comment 1) r ts h in comment (b ∷ s) r r' e inner more
  View-Lexes b s ts (string_view p r e opens) h =
      let (r', inner, more) = went_on single_quoted r ts h in
      string (b ∷ s) p r r' e opens inner more
  View-Lexes b s ts (identifier_view p r e opens) h =
      let (r', inner, more) = went_on double_quoted r ts h in
      identifier (b ∷ s) p r r' e opens inner more
  View-Lexes b s ts (dollar_view name tag r tagged named e) h =
      let (r', inner, more) = went_on (dollar_quoted tag) r ts h in
      dollar (b ∷ s) name tag r r' tagged named e inner more
  View-Lexes b s ts (stop_view e) h = cc
  View-Lexes b s ts (word_view w r e start named out prefixes) h =
      let (ts', accepted, same) = prepend_inv (lowercase (b ∷ w) ∷ []) ts (loop normal r) h in
      subst (Lexes (b ∷ s)) (sym same) (
        word (b ∷ s) b w r (ap (λ t. b ∷ t) e) start named out prefixes
          (sound normal r ts' accepted))
  View-Lexes b s ts (other_view neutral) h = other b s neutral (went_on normal s ts h)

  -- Inside quotes, in either of the two states.
  Quoted-Tail :
      (q b : ℕ) (within : ScanState) (s : Bytes) (ts : List Bytes)
      → ((t : Bytes) → loop within t ≡ some (ok ts) → (r : Bytes) × Quoted q t r × Lexes r ts)
      → after_round (quoted_round within q b s) loop ≡ some (ok ts)
      → (r : Bytes) × Quoted q (b ∷ s) r × Lexes r ts
  Quoted-Tail q b within s ts ih h = elim (Bool-cases (b == q)) [
    | inl quote ↦ elim (Bool-cases (has_at q 0 s)) [
      | inl again ↦
          let (r, inner, more) =
            ih (drop 1 s) (plain_go within (drop 1 s) (rw (quote, again) at h)) in
          let double : Quoted q (b ∷ q ∷ drop 1 s) r =
            twice b q ((==_iff b q).0 quote) refl inner in
          (r, subst (λ t. Quoted q (b ∷ t) r) (sym (has_at_sound q s again)) double, more)
      | inr single ↦ (
        s,
        close b s ((==_iff b q).0 quote) single,
        went_on normal s ts (rw (quote, single) at h),
      )
    ]
    | inr letter ↦
        let (r, inner, more) = ih s (plain_go within s (rw letter at h)) in
        (r, plain b (ne_of b q letter) inner, more)
  ]
    where
      plain_go :
          (state : ScanState) (t : Bytes)
          → prepend [] (loop state t) ≡ some (ok ts)
          → loop state t ≡ some (ok ts)
      plain_go state t k =
          let (ts', e, same) = prepend_inv [] ts (loop state t) k in
          e ∙ ap (λ l. some (ok l)) (sym same)

  line-Tail :
      (b : ℕ) (s : Bytes) (ts : List Bytes)
      → after_round (go (if b == b'\n' then normal else line_comment) s) loop ≡ some (ok ts)
      → Tail line_comment (b ∷ s) ts
  line-Tail b s ts h = elim (Bool-cases (b == b'\n')) [
    | inl ends ↦
        inr
          ([], s, ap (λ c. c ∷ s) ((==_iff b b'\n').0 ends), tt, went_on normal s ts (rw ends at h))
    | inr on ↦ elim (went_on line_comment s ts (rw on at h)) [
      | inl (bare, none_left) ↦ inl ((ne_of b b'\n' on, bare), none_left)
      | inr (c, r, split, bare, more) ↦
          inr (b ∷ c, r, ap (λ t. b ∷ t) split, (ne_of b b'\n' on, bare), more)
    ]
  ]

  closed-Tail :
      (depth : ℕ) (s r : Bytes) (ts : List Bytes)
      → s ≡ codes "*/" ++ r
      → after_round (go (close_comment depth) r) loop ≡ some (ok ts)
      → Tail (block_comment depth) s ts
  closed-Tail depth s r ts e h = elim (Bool-cases (depth - 1 == 0)) [
    | inl outer ↦ (r, last depth s r e (ground arith), went_on normal r ts (rw outer at h))
    | inr nested ↦
        let (r', inner, more) = went_on (block_comment (depth - 1)) r ts (rw nested at h) in
        (r', unnest depth s r r' e (ground arith) inner, more)
  ]

  round-Tail :
      (state : ScanState) (b : ℕ) (s : Bytes) (ts : List Bytes)
      → after_round (scan_round state b s) loop ≡ some (ok ts)
      → Tail state (b ∷ s) ts
  unfolding scan_round
  round-Tail normal b s ts h = View-Lexes b s ts (normal_round-View b s) h
  round-Tail single_quoted b s ts h =
      Quoted-Tail b'\'' b single_quoted s ts (λ t k. sound single_quoted t ts k) h
  round-Tail double_quoted b s ts h =
      Quoted-Tail b'"' b double_quoted s ts (λ t k. sound double_quoted t ts k) h
  round-Tail line_comment b s ts h = line-Tail b s ts h
  round-Tail (block_comment depth) b s ts h = elim (Bool-cases (starts_with (b ∷ s) (codes "/*"))) [
    | inl opens ↦
        let (r, inner, more) = went_on (block_comment (depth + 1)) (drop 1 s) ts (rw opens at h) in
        (
          r,
          nest depth (b ∷ s) (drop 1 s) r (starts_with_sound (b ∷ s) (codes "/*") opens) inner,
          more,
        )
    | inr not_open ↦ elim (Bool-cases (starts_with (b ∷ s) (codes "*/"))) [
      | inl closes ↦
          closed-Tail depth (b ∷ s) (drop 1 s) ts (starts_with_sound (b ∷ s) (codes "*/") closes)
            (rw (not_open, closes) at h)
      | inr neither ↦
          let (r, inner, more) = went_on (block_comment depth) s ts (rw (not_open, neither) at h) in
          (r, inside depth b s r not_open neither inner, more)
    ]
  ]
  round-Tail (dollar_quoted tag) b s ts h = elim (Bool-cases (starts_with (b ∷ s) tag)) [
    | inl closes ↦ (
      drop (length tag) (b ∷ s),
      found (b ∷ s) _ (starts_with_sound (b ∷ s) tag closes),
      went_on normal (drop (length tag) (b ∷ s)) ts (rw closes at h),
    )
    | inr on ↦
        let (r, inner, more) = went_on (dollar_quoted tag) s ts (rw on at h) in
        (r, before b s r on inner, more)
  ]

at_end-Tail : (state : ScanState) (ts : List Bytes) → at_end state ≡ ok ts → Tail state [] ts
at_end-Tail normal ts h = let e : ts ≡ [] = cc h in subst (Lexes []) (sym e) end
at_end-Tail single_quoted ts h = absurd (cc h)
at_end-Tail double_quoted ts h = absurd (cc h)
at_end-Tail line_comment ts h = inl (tt, cc h)
at_end-Tail (block_comment depth) ts h = absurd (cc h)
at_end-Tail (dollar_quoted tag) ts h = absurd (cc h)

scan-IsSound : (fuel : ℕ) → IsSound (λ state s. scan fuel state s)
unfolding scan
scan-IsSound fuel state [] ts h = at_end-Tail state ts (cc h)
scan-IsSound zero state (b ∷ s) ts h = absurd (cc h)
scan-IsSound (suc fuel) state (b ∷ s) ts h =
    round-Tail (λ state' rest. scan fuel state' rest)
      (λ state' s' ts' k. scan-IsSound fuel state' s' ts' k) state b s ts h

-- If the scanner accepts a text with some tokens, the text is made of words, strings, quoted
-- identifiers, comments, dollar quotes and bytes where none of these opens and that are no semicolon,
-- and the tokens are its words.
pub collect_sql_tokens-Lexes :
    (sql : Bytes) (ts : List Bytes) → collect_sql_tokens sql ≡ some (ok ts) → Lexes sql ts
unfolding collect_sql_tokens
collect_sql_tokens-Lexes sql ts h = scan-IsSound (length sql) normal sql ts h
