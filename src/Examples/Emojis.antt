-- ===== src/Examples/Emojis.antt =====
-- A text with two shortcodes, and a pack.
use stunner.Base.{ℕ, ◌+◌, ◌≡◌, refl, none, [], ◌∷◌, ◌++◌, List, map, ltb, ◌&&◌, if◌then◌else◌}
use stunner.Base.Eq.{bytes_eq, bytes_eq_instance}
use stunner.Base.Dict.{lookup}
use stunner.Base.Bytes.{Bytes, codes}
use stunner.Emoji.{
  shortcodes, Animated, apng, replace, new_pack, find_by_id, find_by_shortcode, trim,
}
use stunner.Emoji.Packs.{last_with, find-new_pack}
use stunner.Emoji.Tokens.{Piece, cut, replace-text}

abbrev lower_byte : ℕ → ℕ
lower_byte b = if ltb 64 b && ltb b 91 then b + 32 else b

abbrev to_lower : Bytes → Bytes
to_lower s = map lower_byte s

abbrev pieces : List Piece
pieces =
    record { before = codes "on "; name = codes "Fire" }
    ∷ record { before = codes ", 12"; name = codes "30 " }
    ∷ []

-- The colon of the time opens a name, so that the second shortcode is left as it is.
replace-text_example :
    replace to_lower (codes "on :Fire:, 12:30 :fire:")
    ≡ codes "on " ++ ((0xf0 ∷ 0x9f ∷ 0x94 ∷ 0xa5 ∷ []) ++ codes ", 12:30 :fire:")
unfolding shortcodes lookup bytes_eq
replace-text_example =
    replace-text to_lower pieces (cut (codes "fire") [])
      (
        ((refl, (refl, (refl, tt))), (refl, (refl, (refl, (refl, tt))))),
        (((refl, (refl, (refl, (refl, tt)))), (refl, (refl, (refl, tt)))), tt),
      )
      ((refl, (refl, (refl, (refl, tt)))), tt)

abbrev parrot : Bytes → Animated
parrot asset = record {
  id = codes "parrot";
  shortcode = codes ":party_parrot:";
  format = apng;
  asset_ref = asset;
}

find-new_pack_example :
    (find_by_id
        (codes "parrot")
        (new_pack (codes "p") (parrot (codes "a") ∷ parrot (codes "b") ∷ []))
      ≡ last_with (λ e. e.id) (codes "parrot") none (parrot (codes "a") ∷ parrot (codes "b") ∷ []))
    × (find_by_shortcode
          (codes "party_parrot")
          (new_pack (codes "p") (parrot (codes "a") ∷ parrot (codes "b") ∷ []))
        ≡ last_with
            (λ e. trim e.shortcode)
            (trim (codes "party_parrot"))
            none
            (parrot (codes "a") ∷ parrot (codes "b") ∷ []))
find-new_pack_example =
    find-new_pack (codes "p") (codes "parrot") (codes "party_parrot")
      (parrot (codes "a") ∷ parrot (codes "b") ∷ [])
