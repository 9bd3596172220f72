-- ===== src/Emoji/Packs.antt =====
-- What a pack finds.
use stunner.Base.{◌≡◌, refl, ◌∙◌, ap, Option, none, some, List, [], ◌∷◌, if◌then◌else◌}
use stunner.Base.Bytes.{Bytes}
use stunner.Base.Eq.{bytes_eq, bytes_eq_instance}
use stunner.Base.Dict.{lookup, lookup-insert}
use stunner.Emoji.{
  Animated, Pack, trim, index, index_one, index_each, new_pack, find_by_id, find_by_shortcode,
}

-- The last entry with a key, of those in a list; `before` is what there was.
abbrev pub last_with :
    (Animated → Bytes) → Bytes → Option Animated → List Animated → Option Animated
last_with key k before [] = before
last_with key k before (e ∷ es) = last_with key k (if bytes_eq (key e) k then some e else before) es

by_id-index_each :
    (es : List Animated) (id : Bytes) (p : Pack)
    → lookup id (index_each es p).by_id ≡ last_with (λ e. e.id) id (lookup id p.by_id) es
unfolding index_each index_one
by_id-index_each [] id p = refl
by_id-index_each (e ∷ es) id p =
    by_id-index_each es id (index_one e p)
    ∙ ap (λ o. last_with (λ e. e.id) id o es) (lookup-insert e.id id e p.by_id)

by_short-index_each :
    (es : List Animated) (k : Bytes) (p : Pack)
    → lookup k (index_each es p).by_short
      ≡ last_with (λ e. trim e.shortcode) k (lookup k p.by_short) es
unfolding index_each index_one
by_short-index_each [] k p = refl
by_short-index_each (e ∷ es) k p =
    by_short-index_each es k (index_one e p)
    ∙ ap (λ o. last_with (λ e. trim e.shortcode) k o es)
        (lookup-insert (trim e.shortcode) k e p.by_short)

-- A new pack finds, by an id, the last of its entries with that id, and by a shortcode the last of
-- those whose shortcode is the same up to colons around it; nothing, if there is none.
pub find-new_pack :
    (name id shortcode : Bytes) (es : List Animated)
    → (find_by_id id (new_pack name es) ≡ last_with (λ e. e.id) id none es)
      × (find_by_shortcode shortcode (new_pack name es)
          ≡ last_with (λ e. trim e.shortcode) (trim shortcode) none es)
unfolding find_by_id find_by_shortcode new_pack index lookup
find-new_pack name id shortcode es =
    let p : Pack = record { name = name; emoji = es; by_id = []; by_short = [] } in
    (by_id-index_each es id p, by_short-index_each es (trim shortcode) p)
