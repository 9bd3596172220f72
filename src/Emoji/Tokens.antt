-- ===== src/Emoji/Tokens.antt =====
-- `Replace` against the text cut at its colons.
use stunner.Base.{
  ℕ, zero, suc, ◌<◌, ◌≤◌, ◌≡◌, refl, false, Option, none, some, List, [], ◌∷◌, ◌++◌, ◌==◌, length,
  length-append, drop, take-length_append, drop-length_append, arith,
}
use stunner.Base.Bytes.{Bytes, All}
use stunner.Base.Eq.{bytes_eq_instance}
use stunner.Base.Dict.{lookup}
use stunner.Emoji.{
  shortcodes, lookup_emoji, colon, index_byte, token, replace_name, replace_round, replace_loop,
  replace,
}

-- No colon in a text.
abbrev pub IsPlain : Bytes → Type 0
IsPlain s = All (λ b. (b == b':') ≡ false) s

index_byte-none : (s : Bytes) → IsPlain s → index_byte colon s ≡ none
unfolding index_byte
index_byte-none [] h = refl
index_byte-none (b ∷ bs) h = rw (h.0, index_byte-none bs h.1) refl

index_byte-append : (s t : Bytes) → IsPlain s → index_byte colon (s ++ colon ∷ t) ≡ some (length s)
unfolding index_byte
index_byte-append [] t h = refl
index_byte-append (b ∷ bs) t h = rw (h.0, index_byte-append bs t h.1) refl

drop-suc_append : (s t : Bytes) → drop (suc (length s)) (s ++ colon ∷ t) ≡ t
drop-suc_append [] t = refl
drop-suc_append (b ∷ bs) t = drop-suc_append bs t

-- A text: plain pieces, each followed by a name between two colons, and an end with at most one
-- colon.
pub record Piece : Type 0 where
  pub before : Bytes
  pub name : Bytes

pub data End : Type 0 where
  plain : Bytes → End
  cut : Bytes → Bytes → End

abbrev pub IsPlainPiece : Piece → Type 0
IsPlainPiece x = IsPlain x.before × IsPlain x.name

abbrev pub IsPlainEnd : End → Type 0
IsPlainEnd (plain s) = IsPlain s
IsPlainEnd (cut s t) = IsPlain s × IsPlain t

abbrev pub end_text : End → Bytes
end_text (plain s) = s
end_text (cut s t) = s ++ b':' ∷ t

-- The text itself.
abbrev pub text : List Piece → End → Bytes
text [] e = end_text e
text (x ∷ xs) e = x.before ++ b':' ∷ (x.name ++ b':' ∷ text xs e)

module _ (to_lower : Bytes → Bytes) where
  -- The emoji of a name, or else the name between two colons.
  abbrev pub emoji_or_name : Bytes → Bytes
  emoji_or_name name = elim (lookup (to_lower name) shortcodes) [
    | none ↦ b':' ∷ name ++ b':' ∷ []
    | some e ↦ e
  ]

  -- The text with every name replaced that the table has in lower case.
  abbrev pub replaced : List Piece → End → Bytes
  replaced [] e = end_text e
  replaced (x ∷ xs) e = x.before ++ (emoji_or_name x.name ++ replaced xs e)

  token_lem : (name : Bytes) → token to_lower name ≡ emoji_or_name name
  unfolding token lookup_emoji
  token_lem name = token_cases (lookup (to_lower name) shortcodes)
    where
      token_cases :
          (o : Option Bytes)
          → ◌≡◌ {A = Bytes}
              (elim o [ some e ↦ e | none ↦ (colon ∷ name) ++ colon ∷ [] ])
              (elim o [ none ↦ b':' ∷ name ++ b':' ∷ [] | some e ↦ e ])
      token_cases none = refl
      token_cases (some e) = refl

  replace_loop-end :
      (fuel : ℕ) (e : End)
      → IsPlainEnd e
      → replace_loop to_lower (suc fuel) (end_text e) ≡ end_text e
  unfolding replace_loop replace_round replace_name
  replace_loop-end fuel (plain s) h = rw (index_byte-none s h) refl
  replace_loop-end fuel (cut s t) h =
      rw
        (
          index_byte-append s t h.0,
          take-length_append s (colon ∷ t),
          drop-suc_append s t,
          index_byte-none t h.1,
          drop-length_append s (colon ∷ t),
        )
        refl

  replace_loop-text :
      (fuel : ℕ) (xs : List Piece) (e : End)
      → length xs < fuel
      → All IsPlainPiece xs
      → IsPlainEnd e
      → replace_loop to_lower fuel (text xs e) ≡ replaced xs e
  unfolding replace_loop replace_round replace_name
  replace_loop-text zero xs e h ps pe = absurd (omega arith)
  replace_loop-text (suc fuel) [] e h ps pe = replace_loop-end fuel e pe
  replace_loop-text (suc fuel) (x ∷ xs) e h ps pe =
      let rest = x.name ++ colon ∷ text xs e in
      rw
        (
          index_byte-append x.before rest ps.0.0,
          take-length_append x.before (colon ∷ rest),
          drop-suc_append x.before rest,
          index_byte-append x.name (text xs e) ps.0.1,
          take-length_append x.name (colon ∷ text xs e),
          drop-suc_append x.name (text xs e),
          replace_loop-text fuel xs e (omega arith) ps.1 pe,
          token_lem x.name,
        )
        refl

  length-text : (xs : List Piece) (e : End) → length xs ≤ length (text xs e)
  length-text [] e = omega arith
  length-text (x ∷ xs) e = omega (
    arith,
    length-append x.before (colon ∷ (x.name ++ colon ∷ text xs e)),
    length-append x.name (colon ∷ text xs e),
    length-text xs e,
  )

  -- Of a text that is cut at its colons into plain pieces and names in turn, with an end that has at
  -- most one colon, Replace writes the pieces and the end as they are, the emoji in place of each
  -- name whose lower case is in the table, with its colons, and any other name between its colons
  -- again. So a colon that stands alone opens a name: what looks like a shortcode behind it is then
  -- a plain piece.
  pub replace-text :
      (xs : List Piece) (e : End)
      → All IsPlainPiece xs
      → IsPlainEnd e
      → replace to_lower (text xs e) ≡ replaced xs e
  unfolding replace
  replace-text xs e ps pe =
      replace_loop-text (suc (length (text xs e))) xs e (let n = length-text xs e in omega arith) ps
        pe
