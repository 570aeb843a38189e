-- ===== src/Sql/Scanner/View.antt =====
-- What a round of the normal state may do, with the tests that led there.
use summerrs_admin.Base.{
  ℕ, ◌≡◌, ◌≢◌, refl, ap, sym, ◌∙◌, Bool, true, false, ◌&&◌, ◌||◌, [], ◌∷◌, ◌++◌, ◌==◌, arith, All,
  any, length, if◌then◌else◌, Bool-cases, inl, inr, ==_iff, false≢true,
}
use summerrs_admin.Base.Text.{Bytes, codes, starts_with}
use summerrs_admin.Sql.Scanner.{
  SqlResult, ok, err, several_statements, normal, single_quoted, double_quoted, line_comment,
  block_comment, dollar_quoted, starts_word, in_word, lowercase, word_part, after_word, drop,
  has_at, parse_dollar_quote_tag, Round, go, word_round, dollar_round, normal_round,
}
use summerrs_admin.Sql.Scanner.Lexes.{
  opens_string, opens_identifier, NoPrefix, NoTag, IsOther, first,
}

pub data View (b : ℕ) (s : Bytes) : SqlResult Round → Type 0 where
  line_view : (r : Bytes) → b ∷ s ≡ codes "--" ++ r → View b s (go line_comment r)
  comment_view : (r : Bytes) → b ∷ s ≡ codes "/*" ++ r → View b s (go (block_comment 1) r)
  string_view :
      (p r : Bytes) → b ∷ s ≡ p ++ r → opens_string p ≡ true → View b s (go single_quoted r)
  identifier_view :
      (p r : Bytes) → b ∷ s ≡ p ++ r → opens_identifier p ≡ true → View b s (go double_quoted r)
  dollar_view :
      (name tag r : Bytes)
      → tag ≡ b'$' ∷ (name ++ b'$' ∷ [])
      → All (λ c. in_word c ≡ true) name
      → b ∷ s ≡ tag ++ r
      → View b s (go (dollar_quoted tag) r)
  stop_view : b ≡ b';' → View b s (err several_statements)
  word_view :
      (w r : Bytes)
      → s ≡ w ++ r
      → starts_word b ≡ true
      → All (λ c. in_word c ≡ true) w
      → any in_word (first r) ≡ false
      → NoPrefix (b ∷ s)
      → View b s (ok (record { state = normal; pushed = lowercase (b ∷ w) ∷ []; rest = r }))
  other_view : IsOther b s → View b s (go normal s)

pub starts_with_sound : (s p : Bytes) → starts_with s p ≡ true → s ≡ p ++ drop (length p) s
starts_with_sound s [] h = refl
starts_with_sound [] (b ∷ p) h = cc
starts_with_sound (c ∷ s) (b ∷ p) h = elim (Bool-cases (c == b)) [
  | inl same ↦
      let rest = starts_with_sound s p (rw same at h) in
      let eq = (==_iff c b).0 same in cc (rest, eq)
  | inr other ↦ absurd (false≢true (rw other at h))
]

pub has_at_sound : (b : ℕ) (s : Bytes) → has_at b 0 s ≡ true → s ≡ b ∷ drop 1 s
has_at_sound b s h = starts_with_sound s (b ∷ []) h

has_at_one : (b : ℕ) (s : Bytes) → has_at b 1 s ≡ true → drop 1 s ≡ b ∷ drop 2 s
has_at_one b [] h = starts_with_sound [] (b ∷ []) h
has_at_one b (c ∷ s) h = starts_with_sound s (b ∷ []) h

word_split : (s : Bytes) → s ≡ word_part s ++ after_word s
word_split [] = refl
word_split (b ∷ s) = ground (arith, word_split s)

word_part-All : (s : Bytes) → All (λ c. in_word c ≡ true) (word_part s)
word_part-All [] = tt
word_part-All (b ∷ s) = elim (Bool-cases (in_word b)) [
  | inl inside ↦ rw inside (inside, word_part-All s)
  | inr outside ↦ rw outside tt
]

after_word-first : (s : Bytes) → any in_word (first (after_word s)) ≡ false
after_word-first [] = refl
after_word-first (b ∷ s) = elim (Bool-cases (in_word b)) [
  | inl inside ↦ rw inside (after_word-first s)
  | inr outside ↦ rw (outside, outside)
]

and_true : (p q : Bool) → (p && q) ≡ true → (p ≡ true) × (q ≡ true)
and_true true q h = (refl, h)
and_true false q h = absurd (false≢true h)

pub ne_of : (a b : ℕ) → (a == b) ≡ false → a ≢ b
ne_of a b h e = false≢true (sym h ∙ (==_iff a b).1 e)

-- What the tests before the quotes have ruled out.
abbrev Behind : ℕ → Bytes → Type 0
Behind b s =
    (starts_with (b ∷ s) (codes "--") ≡ false)
    × (starts_with (b ∷ s) (codes "/*") ≡ false)
    × NoPrefix (b ∷ s)

word_round-View :
    (b : ℕ) (s : Bytes)
    → Behind b s
    → b ≢ b'\''
    → b ≢ b'"'
    → NoTag (b ∷ s)
    → View b s (word_round b s)
word_round-View b s (dashes, star, prefixes) single double tag = elim (Bool-cases (b == b';')) [
  | inl stop ↦ rw stop (stop_view ((==_iff b b';').0 stop))
  | inr more ↦ rw more (elim (Bool-cases (starts_word b)) [
    | inl start ↦ rw start (
        word_view (word_part s) (after_word s) (word_split s) start (word_part-All s)
          (after_word-first s) prefixes)
    | inr none_of ↦
        rw none_of (other_view (none_of, ne_of b b';' more, single, double, dashes, star, tag))
  ])
]

after_word-append :
    (name r : Bytes) → All (λ c. in_word c ≡ true) name → after_word (name ++ b'$' ∷ r) ≡ b'$' ∷ r
after_word-append [] r inside = refl
after_word-append (c ∷ name) r (letter, inside) = rw letter (after_word-append name r inside)

-- Where the test for a dollar tag fails, there is none.
no_tag : (b : ℕ) (s : Bytes) → (b == b'$' && has_at b'$' 0 (after_word s)) ≡ false → NoTag (b ∷ s)
no_tag b s h name r inside e =
    let head : b ≡ b'$' = cc e in
    let tail : s ≡ name ++ b'$' ∷ r = cc e in
    let stop : after_word s ≡ b'$' ∷ r = ap after_word tail ∙ after_word-append name r inside in
    absurd (false≢true (sym h ∙ rw (head, stop)))

drop-append : (p r : Bytes) → drop (length p) (p ++ r) ≡ r
drop-append [] r = refl
drop-append (b ∷ p) r = drop-append p r

append_one : (p : Bytes) (b : ℕ) (r : Bytes) → p ++ (b ∷ r) ≡ (p ++ (b ∷ [])) ++ r
append_one [] b r = refl
append_one (c ∷ p) b r = ap (λ t. c ∷ t) (append_one p b r)

after_prefix : (s p r : Bytes) → s ≡ p ++ r → s ≡ p ++ drop (length p) s
after_prefix s p r e = e ∙ ap (λ t. p ++ t) (sym (ap (drop (length p)) e ∙ drop-append p r))

tag_split :
    (b : ℕ) (s r : Bytes)
    → b ≡ b'$'
    → after_word s ≡ b'$' ∷ r
    → b ∷ s
      ≡ (b'$' ∷ (word_part s ++ b'$' ∷ []))
        ++ drop (length (b'$' ∷ (word_part s ++ b'$' ∷ []))) (b ∷ s)
tag_split b s r eb es = after_prefix (b ∷ s) (b'$' ∷ (word_part s ++ b'$' ∷ [])) r (
    ap (λ c. c ∷ s) eb
    ∙ ap (λ t. b'$' ∷ t)
        (word_split s ∙ ap (λ t. word_part s ++ t) es ∙ append_one (word_part s) b'$' r))

-- The bytes behind a dollar tag.
dollar_round-View :
    (b : ℕ) (s : Bytes)
    → Behind b s
    → b ≢ b'\''
    → b ≢ b'"'
    → View b s (dollar_round (parse_dollar_quote_tag (b ∷ s)) b s)
unfolding parse_dollar_quote_tag
dollar_round-View b s before single double =
    elim (Bool-cases (b == b'$' && has_at b'$' 0 (after_word s))) [
      | inl tagged ↦
          let (start, stop) = and_true _ _ tagged in
          let tag : Bytes = b'$' ∷ (word_part s ++ b'$' ∷ []) in
          rw tagged (
            dollar_view (word_part s) tag (drop (length tag) (b ∷ s)) refl (word_part-All s) (
              tag_split b s (drop 1 (after_word s)) ((==_iff b b'$').0 start)
                (has_at_sound b'$' (after_word s) stop)))
      | inr plain ↦ rw plain (word_round-View b s before single double (no_tag b s plain))
    ]

opens_escape : (b : ℕ) → (b == b'E' || b == b'e') ≡ true → opens_string (b ∷ b'\'' ∷ []) ≡ true
opens_escape b h = elim (Bool-cases (b == b'E')) [
  | inl upper ↦ rw ((==_iff b b'E').0 upper)
  | inr other ↦ rw ((==_iff b b'e').0 (rw other at h))
]

opens_unicode :
    (b : ℕ)
    → (b == b'U' || b == b'u') ≡ true
    → (opens_string (b ∷ b'&' ∷ b'\'' ∷ []) ≡ true)
      × (opens_identifier (b ∷ b'&' ∷ b'"' ∷ []) ≡ true)
opens_unicode b h = elim (Bool-cases (b == b'U')) [
  | inl upper ↦ rw ((==_iff b b'U').0 upper) (refl, refl)
  | inr other ↦ rw ((==_iff b b'u').0 (rw other at h)) (refl, refl)
]

unicode_split :
    (b q : ℕ) (s : Bytes)
    → has_at b'&' 0 s ≡ true
    → has_at q 1 s ≡ true
    → b ∷ s ≡ (b ∷ b'&' ∷ q ∷ []) ++ drop 2 s
unicode_split b q s amp quote =
    ap (λ t. b ∷ t) (has_at_sound b'&' s amp ∙ ap (λ t. b'&' ∷ t) (has_at_one q s quote))

-- The three tests together rule out the prefixes.
no_prefix :
    (b : ℕ) (s : Bytes)
    → ((b == b'E' || b == b'e') && has_at b'\'' 0 s) ≡ false
    → ((b == b'U' || b == b'u') && has_at b'&' 0 s && has_at b'\'' 1 s) ≡ false
    → ((b == b'U' || b == b'u') && has_at b'&' 0 s && has_at b'"' 1 s) ≡ false
    → NoPrefix (b ∷ s)
no_prefix b s h3 h4 h5 = ground arith

-- The rounds that open nothing with a prefix.
quote_round-View :
    (b : ℕ) (s : Bytes)
    → Behind b s
    → View b s (
        if b == b'\''
        then go single_quoted s
        else if b == b'"'
        then go double_quoted s
        else dollar_round (parse_dollar_quote_tag (b ∷ s)) b s)
quote_round-View b s before = elim (Bool-cases (b == b'\'')) [
  | inl single ↦ rw single (string_view (b ∷ []) s refl (rw ((==_iff b b'\'').0 single)))
  | inr not_single ↦ rw not_single (elim (Bool-cases (b == b'"')) [
    | inl double ↦ rw double (identifier_view (b ∷ []) s refl (rw ((==_iff b b'"').0 double)))
    | inr not_double ↦
        rw not_double
          (dollar_round-View b s before (ne_of b b'\'' not_single) (ne_of b b'"' not_double))
  ])
]

pub normal_round-View : (b : ℕ) (s : Bytes) → View b s (normal_round b s)
unfolding normal_round
normal_round-View b s = elim (Bool-cases (starts_with (b ∷ s) (codes "--"))) [
  | inl dashes ↦ rw dashes (line_view (drop 1 s) (starts_with_sound (b ∷ s) (codes "--") dashes))
  | inr h1 ↦ rw h1 (elim (Bool-cases (starts_with (b ∷ s) (codes "/*"))) [
    | inl star ↦ rw star (comment_view (drop 1 s) (starts_with_sound (b ∷ s) (codes "/*") star))
    | inr h2 ↦ rw h2 (elim (Bool-cases ((b == b'E' || b == b'e') && has_at b'\'' 0 s)) [
      | inl escape ↦
          let (letter, quote) = and_true _ _ escape in
          rw escape (
            string_view (b ∷ b'\'' ∷ []) (drop 1 s) (ap (λ t. b ∷ t) (has_at_sound b'\'' s quote))
              (opens_escape b letter))
      | inr h3 ↦
          rw h3
            (elim (Bool-cases ((b == b'U' || b == b'u') && has_at b'&' 0 s && has_at b'\'' 1 s)) [
              | inl text ↦
                  let (marks, quote) = and_true _ _ text in
                  let (letter, amp) = and_true _ _ marks in
                  rw text (
                    string_view (b ∷ b'&' ∷ b'\'' ∷ []) (drop 2 s)
                      (unicode_split b b'\'' s amp quote) (opens_unicode b letter).0)
              | inr h4 ↦
                  rw h4
                    (elim (Bool-cases
                      ((b == b'U' || b == b'u') && has_at b'&' 0 s && has_at b'"' 1 s)) [
                        | inl name ↦
                            let (marks, quote) = and_true _ _ name in
                            let (letter, amp) = and_true _ _ marks in
                            rw name (
                              identifier_view (b ∷ b'&' ∷ b'"' ∷ []) (drop 2 s)
                                (unicode_split b b'"' s amp quote) (opens_unicode b letter).1)
                        | inr h5 ↦ rw h5 (quote_round-View b s (h1, h2, no_prefix b s h3 h4 h5))
                      ])
            ])
    ])
  ])
]
