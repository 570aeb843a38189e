-- ===== src/Sql/Scanner/Escapes.antt =====
-- How the scanner reads an escape string `E'\''`: it does not know the backslash, so the text behind
-- the string is inside it.
use summerrs_admin.Base.{
  ℕ, zero, suc, ◌+◌, ◌≤◌, ◌≡◌, refl, some, [], ◌∷◌, ◌++◌, ◌==◌, arith, length, length-append,
  Bool-cases, inl, inr, ==_iff,
}
use summerrs_admin.Base.Text.{Bytes, codes, Without}
use summerrs_admin.Sql.Scanner.{ok, single_quoted, scan, collect_sql_tokens}

abbrev pub escaped_quote : Bytes
escaped_quote = codes "select (E'\\'' "

abbrev pub comment_quote : Bytes
comment_quote = codes ") --'"

-- Inside a string, a text without quotes is passed over.
hidden :
    (fuel : ℕ) (w : Bytes)
    → Without b'\'' w
    → length w + 5 ≤ fuel
    → scan fuel single_quoted (w ++ comment_quote) ≡ some (ok [])
unfolding scan
hidden (suc (suc (suc (suc (suc fuel))))) [] bare h = refl
hidden zero [] bare h = absurd (omega arith)
hidden (suc zero) [] bare h = absurd (omega arith)
hidden (suc (suc zero)) [] bare h = absurd (omega arith)
hidden (suc (suc (suc zero))) [] bare h = absurd (omega arith)
hidden (suc (suc (suc (suc zero)))) [] bare h = absurd (omega arith)
hidden zero (b ∷ w) bare h = absurd (omega arith)
hidden (suc fuel) (b ∷ w) bare h = elim (Bool-cases (b == b'\'')) [
  | inl quote ↦ absurd (bare.0 ((==_iff b b'\'').0 quote))
  | inr other ↦ rw other (rw (hidden fuel w bare.1 (omega arith)) refl)
]

room :
    (w : Bytes)
    → length w + 5 ≤ suc (suc (suc (suc (suc (suc (suc (length (w ++ comment_quote))))))))
room w = rw (length-append w comment_quote) (omega arith)

-- Behind an escape string that is one quote, a text without quotes is no token, whatever it says.
pub escape_quote-hides :
    (w : Bytes)
    → Without b'\'' w
    → collect_sql_tokens (escaped_quote ++ w ++ comment_quote) ≡ some (ok (codes "select" ∷ []))
unfolding collect_sql_tokens
escape_quote-hides w bare =
    rw
      (hidden (suc (suc (suc (suc (suc (suc (suc (length (w ++ comment_quote))))))))) w bare
        (room w))
      refl
