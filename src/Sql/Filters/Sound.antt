-- ===== src/Sql/Filters/Sound.antt =====
-- What `build_filters_clause` builds.
use mathlib.Core.Path.{subst}
use summerrs_admin.Base.{
  ℕ, ◌≡◌, refl, sym, ◌∙◌, ap, Bool, true, false, Option, none, some, List, [], ◌∷◌, ◌++◌, length,
  if◌then◌else◌,
}
use summerrs_admin.Base.Text.{Bytes, codes}
use summerrs_admin.Sql.Schema.{
  Serde, TableColumnSchema, TableSchema, ok, err, hidden_column, find_column,
  ensure_valid_identifier,
}
use summerrs_admin.Sql.Shorthand.{TableFilter, parse_filter_shorthand}
use summerrs_admin.Sql.Filters.{
  TableFilterInput, structured, group, shorthand, Inputs, absent, given, InputList, nothing, item,
  join_with, visible_column, grouped, all_filters, build_single_filter_clause,
  build_filter_input_clause, build_input_clauses, build_filters_clause,
}
use summerrs_admin.Sql.Filters.Clause.{
  Clause, leaf, joined, Clauses, end, more, joiner, text, texts, numbers, all_numbers, Reads,
  AllRead, Counts,
}
use summerrs_admin.Sql.Filters.Bound.{and_then_inv, ok_injective}
use summerrs_admin.Sql.Filters.Leaves.{build_filter_clause-LeafBuilt}

pub Counts-append :
    (a b c : ℕ) (ns ms : List ℕ) → Counts a ns b → Counts b ms c → Counts a (ns ++ ms) c
Counts-append a b c [] ms h k = subst (λ z. Counts z ms c) (sym h) k
Counts-append a b c (n ∷ ns) ms (h, hs) k = (h, Counts-append n b c ns ms hs k)

Counts-unappend : (a b : ℕ) (ns : List ℕ) → Counts a (ns ++ []) b → Counts a ns b
Counts-unappend a b [] h = h
Counts-unappend a b (n ∷ ns) (h, hs) = (h, Counts-unappend n b ns hs)

-- A condition that was built: its text, the next parameters in order, and readable columns only.
pub record IsShown (schema : TableSchema) (params : List Bytes) (built : Bytes × List Bytes)
    : Type 0 where
  pub clause : Clause
  pub shown : built.0 ≡ text clause
  pub counted : Counts (length params) (numbers clause) (length built.1)
  pub reads : Reads schema clause

pub record AreShown (schema : TableSchema) (params : List Bytes) (built : List Bytes × List Bytes)
    : Type 0 where
  pub clauses : Clauses
  pub shown : built.0 ≡ texts clauses
  pub counted : Counts (length params) (all_numbers clauses) (length built.1)
  pub reads : AllRead schema clauses

unhidden :
    (b : Bool) (d c : TableColumnSchema)
    → (if b then err hidden_column else ok d) ≡ ok c
    → (b ≡ false) × (d ≡ c)
unhidden true d c e = cc e
unhidden false d c e = (refl, ok_injective d c e)

pub visible_column_inv :
    (o : Option TableColumnSchema) (c : TableColumnSchema)
    → visible_column o ≡ ok c
    → (o ≡ some c) × (c.hidden_on_read ≡ false)
visible_column_inv none c e = cc e
visible_column_inv (some d) c e =
    let (visible, same) = unhidden d.hidden_on_read d c e in
    (ap some same, ap TableColumnSchema.hidden_on_read (sym same) ∙ visible)

-- A group is in parentheses, or the one condition that it has.
one_clause :
    (schema : TableSchema) (params : List Bytes) (t : Bytes) (after : List Bytes) (cs : Clauses)
    → t ∷ [] ≡ texts cs
    → Counts (length params) (all_numbers cs) (length after)
    → AllRead schema cs
    → IsShown schema params (t, after)
unfolding texts all_numbers AllRead
one_clause schema params t after end shown counted reads = absurd (cc shown)
one_clause schema params t after (more c (more d cs)) shown counted reads = absurd (cc shown)
one_clause schema params t after (more c end) shown counted reads = record {
  clause = c;
  shown = cc shown;
  counted = Counts-unappend _ _ (numbers c) counted;
  reads = reads.0;
}

grouped-IsShown :
    (schema : TableSchema) (alternative : Bool) (params : List Bytes)
    (inner : List Bytes × List Bytes) (built : Bytes × List Bytes)
    → grouped (joiner alternative) inner ≡ ok built
    → AreShown schema params inner
    → IsShown schema params built
unfolding text numbers Reads
grouped-IsShown schema alternative params ([], after) built e all = cc e
grouped-IsShown schema alternative params (t ∷ [], after) built e all =
    subst (IsShown schema params) (ok_injective _ built e)
      (one_clause schema params t after all.clauses all.shown all.counted all.reads)
grouped-IsShown schema alternative params (t ∷ u ∷ ts, after) built e all =
    subst (IsShown schema params) (ok_injective _ built e) (record {
      clause = joined alternative all.clauses;
      shown = ap (λ z. codes "(" ++ join_with (joiner alternative) z ++ codes ")") all.shown;
      counted = all.counted;
      reads = all.reads;
    })

-- The text of all filters, if there are some.
abbrev IsWhere : TableSchema → (clause : Bytes) → (params : List Bytes) → Type 0
IsWhere schema clause params =
    (cs : Clauses) × (clause ≡ join_with (codes " AND ") (texts cs))
    × Counts 0 (all_numbers cs) (length params)
    × AllRead schema cs

all_filters-IsWhere :
    (schema : TableSchema) (built : List Bytes × List Bytes) (clause : Bytes) (params : List Bytes)
    → all_filters built ≡ (some clause, params)
    → AreShown schema [] built
    → IsWhere schema clause params
all_filters-IsWhere schema ([], after) clause params e all = absurd (cc (ap (λ z. z.0) e))
all_filters-IsWhere schema (t ∷ ts, after) clause params e all =
    let same : join_with (codes " AND ") (t ∷ ts) ≡ clause = cc (ap (λ z. z.0) e) in
    (
      all.clauses,
      sym same ∙ ap (join_with (codes " AND ")) all.shown,
      subst (λ z. Counts 0 (all_numbers all.clauses) (length z)) (ap (λ z. z.1) e) all.counted,
      all.reads,
    )

module _ (J : Serde) (schema : TableSchema) where
  single-IsShown :
      (filter : TableFilter) (params : List Bytes) (built : Bytes × List Bytes)
      → build_single_filter_clause J schema filter params ≡ ok built
      → IsShown schema params built
  unfolding build_single_filter_clause numbers Reads text
  single-IsShown filter params built e =
      let (valid, e1, e2) = and_then_inv (ensure_valid_identifier filter.column) _ built e in
      let (c, e3, e4) =
        and_then_inv (visible_column (find_column filter.column schema.columns)) _ built e2 in
      let column = visible_column_inv (find_column filter.column schema.columns) c e3 in
      let made =
        build_filter_clause-LeafBuilt J filter.op c filter.value filter.values params built e4 in
      record {
        clause = leaf c made.condition;
        shown = made.shown;
        counted = made.counted;
        reads = (column.1, (filter.column, column.0));
      }

  mutual
    unfolding build_filter_input_clause build_input_clauses texts all_numbers AllRead

    pub build_filter_input_clause-IsShown :
        (input : TableFilterInput) (params : List Bytes) (built : Bytes × List Bytes)
        → build_filter_input_clause J schema input params ≡ ok built
        → IsShown schema params built
    build_filter_input_clause-IsShown (structured filter) params built e =
        single-IsShown filter params built e
    build_filter_input_clause-IsShown (group (given items) (given others)) params built e = cc e
    build_filter_input_clause-IsShown (group absent absent) params built e = cc e
    build_filter_input_clause-IsShown (group (given items) absent) params built e =
        let (inner, e1, e2) = and_then_inv (build_input_clauses J schema items params) _ built e in
        grouped-IsShown schema false params inner built e2
          (build_input_clauses-AreShown items params inner e1)
    build_filter_input_clause-IsShown (group absent (given items)) params built e =
        let (inner, e1, e2) = and_then_inv (build_input_clauses J schema items params) _ built e in
        grouped-IsShown schema true params inner built e2
          (build_input_clauses-AreShown items params inner e1)
    build_filter_input_clause-IsShown (shorthand written) params built e =
        let (filter, e1, e2) = and_then_inv (parse_filter_shorthand J written) _ built e in
        single-IsShown filter params built e2

    pub build_input_clauses-AreShown :
        (items : InputList) (params : List Bytes) (built : List Bytes × List Bytes)
        → build_input_clauses J schema items params ≡ ok built
        → AreShown schema params built
    build_input_clauses-AreShown nothing params built e =
        let same = ok_injective _ built e in
        record {
          clauses = end;
          shown = ap (λ z. z.0) (sym same);
          counted = ap (λ z. length z.1) same;
          reads = tt;
        }
    build_input_clauses-AreShown (item input items) params built e =
        let (first, e1, e2) =
          and_then_inv (build_filter_input_clause J schema input params) _ built e in
        let (rest, e3, e4) = and_then_inv (build_input_clauses J schema items first.1) _ built e2 in
        let here = build_filter_input_clause-IsShown input params first e1 in
        let there = build_input_clauses-AreShown items first.1 rest e3 in
        subst (AreShown schema params) (ok_injective _ built e4) (record {
          clauses = more here.clause there.clauses;
          shown = ap (λ z. z ∷ rest.0) here.shown ∙ ap (λ z. text here.clause ∷ z) there.shown;
          counted = Counts-append _ _ _ (numbers here.clause) _ here.counted there.counted;
          reads = (here.reads, there.reads);
        })

  -- A WHERE text that was built is the AND of conditions, whose text is made of fixed words, names
  -- and types of columns of the table that are not hidden, and parameter numbers; the numbers go from
  -- 1 up to the number of bound values, in the order of the text.
  pub build_filters_clause-AreShown :
      (inputs : Inputs) (clause : Bytes) (params : List Bytes)
      → build_filters_clause J schema inputs ≡ ok (some clause, params)
      → (cs : Clauses) × (clause ≡ join_with (codes " AND ") (texts cs))
        × Counts 0 (all_numbers cs) (length params)
        × AllRead schema cs
  unfolding build_filters_clause
  build_filters_clause-AreShown absent clause params e =
      absurd (cc (ap (λ z. z.0) (ok_injective _ _ e)))
  build_filters_clause-AreShown (given items) clause params e =
      let (built, e1, e2) = and_then_inv (build_input_clauses J schema items []) _ _ e in
      let all = build_input_clauses-AreShown items [] built e1 in
      all_filters-IsWhere schema built clause params (ok_injective _ _ e2) all
