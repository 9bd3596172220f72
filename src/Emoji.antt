-- ===== src/Emoji.antt =====
-- core/pkg/emoji: shortcodes in text, and packs of animated emoji. Text is its UTF-8 bytes;
-- strings.ToLower is a parameter.
pub mod Tokens
pub mod Packs
use stunner.Base.{
  ℕ, zero, suc, ◌+◌, ◌==◌, Bool, true, false, Option, none, some, List, [], ◌∷◌, ◌++◌, length, take,
  drop, if◌then◌else◌,
}
use mathlib.Core.List.{reverse}
use stunner.Base.Bytes.{Bytes, codes}
use stunner.Base.Eq.{bytes_eq_instance}
use stunner.Base.Dict.{Dict, lookup, insert}

pub data Format : Type 0 where
  lottie apng web_p : Format

pub record Animated : Type 0 where
  pub id : Bytes
  pub shortcode : Bytes
  pub format : Format
  pub asset_ref : Bytes

unfoldable pub shortcodes : Dict Bytes Bytes
shortcodes =
    (codes "smile", 0xf0 ∷ 0x9f ∷ 0x98 ∷ 0x84 ∷ [])
    ∷ (codes "grin", 0xf0 ∷ 0x9f ∷ 0x98 ∷ 0x81 ∷ [])
    ∷ (codes "joy", 0xf0 ∷ 0x9f ∷ 0x98 ∷ 0x82 ∷ [])
    ∷ (codes "heart", 0xe2 ∷ 0x9d ∷ 0xa4 ∷ 0xef ∷ 0xb8 ∷ 0x8f ∷ [])
    ∷ (codes "thumbsup", 0xf0 ∷ 0x9f ∷ 0x91 ∷ 0x8d ∷ [])
    ∷ (codes "thumbsdown", 0xf0 ∷ 0x9f ∷ 0x91 ∷ 0x8e ∷ [])
    ∷ (codes "fire", 0xf0 ∷ 0x9f ∷ 0x94 ∷ 0xa5 ∷ [])
    ∷ (codes "tada", 0xf0 ∷ 0x9f ∷ 0x8e ∷ 0x89 ∷ [])
    ∷ (codes "rocket", 0xf0 ∷ 0x9f ∷ 0x9a ∷ 0x80 ∷ [])
    ∷ (codes "eyes", 0xf0 ∷ 0x9f ∷ 0x91 ∷ 0x80 ∷ [])
    ∷ (codes "wave", 0xf0 ∷ 0x9f ∷ 0x91 ∷ 0x8b ∷ [])
    ∷ (codes "lock", 0xf0 ∷ 0x9f ∷ 0x94 ∷ 0x92 ∷ [])
    ∷ []

-- The byte of ':'.
abbrev pub colon : ℕ
colon = 58

abbrev pub one_further : Option ℕ → Option ℕ
one_further none = none
one_further (some i) = some (suc i)

-- strings.IndexByte
unfoldable pub index_byte : ℕ → Bytes → Option ℕ
index_byte c [] = none
index_byte c (b ∷ bs) =
    let rest = one_further (index_byte c bs) in if b == c then some zero else rest

module _ (to_lower : Bytes → Bytes) where
  -- `Lookup`
  unfoldable pub lookup_emoji : Bytes → Option Bytes
  lookup_emoji shortcode = lookup (to_lower shortcode) shortcodes

  -- What `Replace` writes for a name between two colons.
  unfoldable pub token : Bytes → Bytes
  token name = elim (lookup_emoji name) [ some e ↦ e | none ↦ (colon ∷ name) ++ colon ∷ [] ]

  -- The end of a round of the loop, behind the first colon of `open_text`: `rest` is what follows
  -- it, and `again` the next round.
  unfoldable pub replace_name : (Bytes → Bytes) → Bytes → Bytes → Option ℕ → Bytes
  replace_name again open_text rest none = open_text
  replace_name again open_text rest (some end) =
      token (take end rest) ++ again (drop (suc end) rest)

  unfoldable pub replace_round : (Bytes → Bytes) → Bytes → Option ℕ → Bytes
  replace_round again s none = s
  replace_round again s (some start) =
      take start s
      ++ replace_name again (drop start s) (drop (suc start) s)
          (index_byte colon (drop (suc start) s))

  -- The loop of `Replace`, on fuel.
  unfoldable pub replace_loop : ℕ → Bytes → Bytes
  replace_loop zero s = s
  replace_loop (suc fuel) s = replace_round (replace_loop fuel) s (index_byte colon s)

  unfoldable pub replace : Bytes → Bytes
  replace s = replace_loop (suc (length s)) s

-- A pack, with the two maps that `index` makes.
pub record Pack : Type 0 where
  pub name : Bytes
  pub emoji : List Animated
  pub by_id : Dict Bytes Animated
  pub by_short : Dict Bytes Animated

-- strings.Trim(s, ":")
unfoldable pub trim_left : Bytes → Bytes
trim_left [] = []
trim_left (b ∷ bs) = let rest = trim_left bs in if b == colon then rest else b ∷ bs

unfoldable pub trim : Bytes → Bytes
trim s = reverse (trim_left (reverse (trim_left s)))

-- One round of the loop of `index`.
unfoldable pub index_one : Animated → Pack → Pack
index_one e p = record p {
  by_id = insert e.id e p.by_id;
  by_short = insert (trim e.shortcode) e p.by_short;
}

unfoldable pub index_each : List Animated → Pack → Pack
index_each [] p = p
index_each (e ∷ es) p = index_each es (index_one e p)

unfoldable pub index : Pack → Pack
index p = index_each p.emoji (record p { by_id = []; by_short = [] })

unfoldable pub new_pack : Bytes → List Animated → Pack
new_pack name emoji = index (record { name = name; emoji = emoji; by_id = []; by_short = [] })

-- `ByID`
unfoldable pub find_by_id : Bytes → Pack → Option Animated
find_by_id id p = lookup id p.by_id

-- `ByShortcode`
unfoldable pub find_by_shortcode : Bytes → Pack → Option Animated
find_by_shortcode shortcode p = lookup (trim shortcode) p.by_short
