-- ===== src/Flatten/Plists.antt =====
-- ee/dataflatten/flatten.go: where the rows of a plist in a text come from.
use launcher.Base.{
  ℕ, zero, suc, ◌≡◌, refl, sym, Bool, true, false, ◌&&◌, Option, none, some, List, [], ◌∷◌, ◌++◌,
  Bytes, codes, ok, err, if◌then◌else◌, All,
}
use mathlib.Core.Path.{subst}
use launcher.Flatten.Tree.{Data, text, raw, Flattener, Codecs}
use launcher.Flatten.Query.{is_plist}
use launcher.Flatten.{Rows, also, handle_string_like, descend, raw_rows, descend_maybe_plist}
use launcher.Flatten.Leads.{
  Leads, in_text, in_raw, raw_of_text, raw_of_raw, arrived, shown, Found, IsSound, widen, under,
  also-IsSound, handle_string_like-IsSound,
}
use launcher.Flatten.Sound.{descend-IsSound}

module _ (fl : Flattener) (codecs : Codecs) where
  raw_rows-IsSound :
      (L : List Bytes → Data → Type 0) (path : List Bytes) (s : Bytes) (depth : ℕ)
      → L (codes "_raw" ∷ []) (raw s)
      → All (Found fl codecs L path) (raw_rows fl codecs path s depth)
  unfolding raw_rows
  raw_rows-IsSound L path s depth l =
      elim fl.include_nested_raw
        as (λ b. All (Found fl codecs L path) (
          if b
          then (elim (handle_string_like fl codecs (path ++ codes "_raw" ∷ []) (raw s) depth) [
            | ok rows ↦ rows
            | err e ↦ []
          ])
          else [])) [
            | false ↦ tt
            | true ↦ go (handle_string_like fl codecs (path ++ codes "_raw" ∷ []) (raw s) depth) (
                under fl codecs (λ rest leaf. (rest ≡ []) × (leaf ≡ raw s)) L path (codes "_raw")
                  (λ rest leaf (e, f).
                    subst (λ r. L (codes "_raw" ∷ r) leaf) (sym e)
                      (subst (λ x. L (codes "_raw" ∷ []) x) (sym f) l))
                  (handle_string_like fl codecs (path ++ codes "_raw" ∷ []) (raw s) depth)
                  (handle_string_like-IsSound fl codecs (λ rest leaf. (rest ≡ []) × (leaf ≡ raw s))
                    (path ++ codes "_raw" ∷ []) (raw s) (raw s) depth (refl, refl) refl))
          ]
    where
      go :
          (r : Rows)
          → IsSound fl codecs L path r
          → All (Found fl codecs L path) (elim r [ ok rows ↦ rows | err e ↦ [] ])
      go (ok rows) h = h
      go (err e) h = tt

  -- a plist that is expanded, or the text as it is; `d` is the text in the data
  maybe_plist-IsSound :
      (d : Data) (path : List Bytes) (s : Bytes) (depth : ℕ) (below : Data → Rows)
      → shown d ≡ raw s
      → Leads codecs d (codes "_raw" ∷ []) (raw s)
      → ((inner leaf : Data) (rest : List Bytes)
          → codecs.parse_plist s ≡ some inner
          → Leads codecs inner rest leaf
          → Leads codecs d rest leaf)
      → ((inner : Data) → IsSound fl codecs (Leads codecs inner) path (below inner))
      → (b : Bool) (o : Option Data) → codecs.parse_plist s ≡ o
      → IsSound fl codecs (Leads codecs d) path (elim b [
        | false ↦ handle_string_like fl codecs path (raw s) depth
        | true ↦ elim o [
          | none ↦ handle_string_like fl codecs path (raw s) depth
          | some inner ↦ also (ok (raw_rows fl codecs path s depth)) (below inner)
        ]
      ])
  maybe_plist-IsSound d path s depth below same by_raw into h false o e =
      handle_string_like-IsSound fl codecs (Leads codecs d) path (raw s) d depth arrived same
  maybe_plist-IsSound d path s depth below same by_raw into h true none e =
      handle_string_like-IsSound fl codecs (Leads codecs d) path (raw s) d depth arrived same
  maybe_plist-IsSound d path s depth below same by_raw into h true (some inner) e =
      also-IsSound fl codecs (Leads codecs d) path (ok (raw_rows fl codecs path s depth))
        (below inner) (raw_rows-IsSound (Leads codecs d) path s depth by_raw)
        (widen fl codecs (Leads codecs inner) (Leads codecs d) path
          (λ rest leaf l. into inner leaf rest e l) (below inner) (h inner))

  pub descend_maybe_plist-IsSound :
      (fuel : ℕ) (path : List Bytes) (s : Bytes) (depth : ℕ)
      → IsSound fl codecs
          (Leads codecs (text s))
          path
          (descend_maybe_plist fl codecs fuel path s depth)
        × IsSound fl codecs
            (Leads codecs (raw s))
            path
            (descend_maybe_plist fl codecs fuel path s depth)
  unfolding descend_maybe_plist
  descend_maybe_plist-IsSound zero path s depth = (tt, tt)
  descend_maybe_plist-IsSound (suc fuel) path s depth =
      let below : Data → Rows =
        λ inner. descend fl codecs (descend_maybe_plist fl codecs fuel) path inner depth in
      let sound : (inner : Data) → IsSound fl codecs (Leads codecs inner) path (below inner) =
        λ inner.
          descend-IsSound fl codecs (descend_maybe_plist fl codecs fuel)
            (λ p t k. (descend_maybe_plist-IsSound fuel p t k).0)
            (λ p t k. (descend_maybe_plist-IsSound fuel p t k).1) path inner depth in
      let test = fl.expand_nested_plist && is_plist s in
      (
        maybe_plist-IsSound (text s) path s depth below refl raw_of_text
            (λ inner leaf rest e l. in_text e l) sound test (codecs.parse_plist s) refl,
        maybe_plist-IsSound (raw s) path s depth below refl raw_of_raw
            (λ inner leaf rest e l. in_raw e l) sound test (codecs.parse_plist s) refl,
      )
