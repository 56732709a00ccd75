-- ===== src/Kitchen/Grouping.antt =====
-- Grouping an order's lines by station loses none and adds none, and puts each where it belongs.
use restiq_backend.Base.{
  ℕ, suc, ◌+◌, ◌≡◌, refl, Bool, false, ◌||◌, Option, List, [], ◌∷◌, ◌++◌, ◌==◌, eq_option, any,
  length, length-append, All, All-append, Bool-cases, eq_option-eq, inl, inr, sym, arith,
}
use restiq_backend.Store.Rows.{OrderLine}
use restiq_backend.Kitchen.{Group, add_to_group, group_lines}

-- The line stands in the list.
abbrev pub holds_line : ℕ → List OrderLine → Bool
holds_line id ls = any (λ l. l.id == id) ls

abbrev pub holds : ℕ → List Group → Bool
holds id [] = false
holds id ((s, ls) ∷ gs) = holds_line id ls || holds id gs

abbrev pub total_lines : List Group → ℕ
total_lines [] = 0
total_lines ((s, ls) ∷ gs) = length ls + total_lines gs

pub any-append {ℓ} :
    {A : Type ℓ} (p : A → Bool) (xs ys : List A) → any p (xs ++ ys) ≡ (any p xs || any p ys)
any-append p [] ys = refl
any-append p (x ∷ xs) ys = ground (arith, any-append p xs ys)

holds-add_to_group :
    (id : ℕ) (s : Option ℕ) (l : OrderLine) (gs : List Group)
    → holds id (add_to_group s l gs) ≡ ((l.id == id) || holds id gs)
unfolding add_to_group
holds-add_to_group id s l [] = ground arith
holds-add_to_group id s l ((t, ls) ∷ gs) =
    ground
      (arith, any-append (λ (x : OrderLine). x.id == id) ls (l ∷ []), holds-add_to_group id s l gs)

total_lines-add_to_group :
    (s : Option ℕ) (l : OrderLine) (gs : List Group)
    → total_lines (add_to_group s l gs) ≡ suc (total_lines gs)
unfolding add_to_group
total_lines-add_to_group s l [] = ground arith
total_lines-add_to_group s l ((t, ls) ∷ gs) =
    ground (arith, length-append ls (l ∷ []), total_lines-add_to_group s l gs)

pub holds-group_lines :
    (id : ℕ) (station : OrderLine → Option ℕ) (ls : List OrderLine) (gs : List Group)
    → holds id (group_lines station ls gs) ≡ (holds_line id ls || holds id gs)
unfolding group_lines
holds-group_lines id station [] gs = refl
holds-group_lines id station (l ∷ ls) gs = ground (
  arith,
  holds-group_lines id station ls (add_to_group (station l) l gs),
  holds-add_to_group id (station l) l gs,
)

pub total_lines-group_lines :
    (station : OrderLine → Option ℕ) (ls : List OrderLine) (gs : List Group)
    → total_lines (group_lines station ls gs) ≡ length ls + total_lines gs
unfolding group_lines
total_lines-group_lines station [] gs = omega arith
total_lines-group_lines station (l ∷ ls) gs = omega (
  arith,
  total_lines-group_lines station ls (add_to_group (station l) l gs),
  total_lines-add_to_group (station l) l gs,
)

-- Every line of a group is routed to the group's station.
abbrev pub IsRouted : (OrderLine → Option ℕ) → List Group → Type 0
IsRouted station gs = All (λ (g : Group). All (λ l. station l ≡ g.0) g.1) gs

add_to_group-IsRouted :
    (station : OrderLine → Option ℕ) (l : OrderLine) (gs : List Group)
    → IsRouted station gs
    → IsRouted station (add_to_group (station l) l gs)
unfolding add_to_group
add_to_group-IsRouted station l [] h = ((refl, tt), tt)
add_to_group-IsRouted station l ((s, ls) ∷ gs) (here, rest) =
    elim (Bool-cases (eq_option s (station l))) [
      | inl same ↦
          rw same (All-append _ ls (l ∷ []) here (sym (eq_option-eq s (station l) same), tt), rest)
      | inr other ↦ rw other (here, add_to_group-IsRouted station l gs rest)
    ]

pub group_lines-IsRouted :
    (station : OrderLine → Option ℕ) (ls : List OrderLine) (gs : List Group)
    → IsRouted station gs
    → IsRouted station (group_lines station ls gs)
unfolding group_lines
group_lines-IsRouted station [] gs h = h
group_lines-IsRouted station (l ∷ ls) gs h =
    group_lines-IsRouted station ls _ (add_to_group-IsRouted station l gs h)

-- Grouping loses no line and adds none, and each line stands in the group of its station.
pub group_lines_complete :
    (station : OrderLine → Option ℕ) (ls : List OrderLine)
    → let gs = group_lines station ls [] in
      IsRouted station gs
      × (total_lines gs ≡ length ls)
      × ((id : ℕ) → holds id gs ≡ holds_line id ls)
group_lines_complete station ls = (
  group_lines-IsRouted station ls [] tt,
  omega (arith, total_lines-group_lines station ls []),
  (λ id. ground (arith, holds-group_lines id station ls [])),
)
