-- ===== src/Menu/Picks.antt =====
-- The picks of a combo: those that were asked for and the slots that are filled in
-- (`resolveComboSelection` of admin/menu/combo-menu.ts).
use restiq_backend.Base.{
  ℕ, ◌+◌, ◌≡◌, refl, sym, ◌∙◌, ap, subst, Bool, true, false, Option, some, List, [], ◌∷◌, ◌++◌,
  Nothing, ◌==◌, ==_iff, if◌then◌else◌, or_else, find, find-passes, find-In, In, All-append,
  All-weaken, any, All, Bool-cases, Option-cases, inl, inr, arith,
}
use mathlib.Core.List.{append-nil, append_assoc}
use restiq_backend.Store.Rows.{ComboSlot, ComboSlotOption}
use restiq_backend.Menu.{
  ComboSelection, option_by_id, Pick, picked, whole_slot, fill_slot, fill_slots, picks_of,
}

picked-append : (k : ℕ) (ps qs : List Pick) → picked k (ps ++ qs) ≡ picked k ps + picked k qs
unfolding picked
picked-append k [] qs = omega arith
picked-append k (p ∷ ps) qs = ground (arith, picked-append k ps qs)

fill_slot-other :
    (k : ℕ) (slot : ComboSlot) (ps : List Pick)
    → (slot.id == k) ≡ false
    → picked k (fill_slot slot ps) ≡ picked k ps
unfolding fill_slot picked
fill_slot-other k slot ps other = go slot.options
  where
    added : (o : ComboSlotOption) → picked k (ps ++ whole_slot slot o ∷ []) ≡ picked k ps
    added o = picked-append k ps (whole_slot slot o ∷ []) ∙ rw other (omega arith)

    filled : (o : ComboSlotOption) → Bool → List Pick
    filled o b = if b then ps else ps ++ whole_slot slot o ∷ []

    one : (o : ComboSlotOption) (b : Bool) → picked k (filled o b) ≡ picked k ps
    one o true = refl
    one o false = added o

    by : List ComboSlotOption → List Pick
    by os = elim os [
      | [] ↦ ps
      | o ∷ more ↦ elim more [ [] ↦ filled o (any (λ p. p.slot.id == slot.id) ps) | _ ∷ _ ↦ ps ]
    ]

    go : (os : List ComboSlotOption) → picked k (by os) ≡ picked k ps
    go [] = refl
    go (o ∷ []) = one o (any (λ p. p.slot.id == slot.id) ps)
    go (o ∷ o' ∷ os) = refl

-- The slots have ids of their own, as rows of a table do.
abbrev pub Distinct : List ComboSlot → Type 0
Distinct [] = Unit
Distinct (s ∷ ss) = All (λ (t : ComboSlot). (t.id == s.id) ≡ false) ss × Distinct ss

fill_slots-other :
    (k : ℕ) (slots : List ComboSlot) (ps filled : List Pick)
    → All (λ (t : ComboSlot). (t.id == k) ≡ false) slots
    → fill_slots slots ps ≡ some filled
    → picked k filled ≡ picked k ps
unfolding fill_slots
fill_slots-other k [] ps filled h e = ap (λ o. picked k (or_else o [])) (sym e)
fill_slots-other k (slot ∷ slots) ps filled (other, h) e =
    elim (Bool-cases (picked slot.id (fill_slot slot ps) == slot.pick_count)) [
      | inl right ↦
          fill_slots-other k slots (fill_slot slot ps) filled h (rw right at e)
          ∙ fill_slot-other k slot ps other
      | inr wrong ↦ absurd (let stuck = rw wrong at e in cc)
    ]

-- Every slot has exactly its number of picks.
abbrev pub Complete : List ComboSlot → List Pick → Type 0
Complete slots picks = All (λ (s : ComboSlot). picked s.id picks ≡ s.pick_count) slots

pub fill_slots-Complete :
    (slots : List ComboSlot) (ps filled : List Pick)
    → Distinct slots
    → fill_slots slots ps ≡ some filled
    → Complete slots filled
unfolding fill_slots
fill_slots-Complete [] ps filled d e = tt
fill_slots-Complete (slot ∷ slots) ps filled (own, d) e =
    elim (Bool-cases (picked slot.id (fill_slot slot ps) == slot.pick_count)) [
      | inl right ↦
          let rest : fill_slots slots (fill_slot slot ps) ≡ some filled = rw right at e in
          (
            fill_slots-other slot.id slots (fill_slot slot ps) filled own rest
                ∙ ground (arith, ==_iff (picked slot.id (fill_slot slot ps)) slot.pick_count),
            fill_slots-Complete slots (fill_slot slot ps) filled d rest,
          )
      | inr wrong ↦ absurd (let stuck = rw wrong at e in cc)
    ]

-- A pick is what one selection asked for: an option of that id in one of the combo's slots, as many
-- of it as asked, or one, with the modifiers asked for.
pub record AskedFor (slots : List ComboSlot) (s : ComboSelection) (p : Pick) : Type 0 where
  pub in_combo : In p.slot slots
  pub in_slot : In p.option p.slot.options
  pub same_option : p.option.id ≡ s.option_id
  pub amount : p.quantity ≡ or_else s.quantity 1
  pub choices : p.modifier_ids ≡ or_else s.modifier_ids []

-- The picks are the selections, one for one and in order.
abbrev pub Chosen : List ComboSlot → List ComboSelection → List Pick → Type 0
Chosen slots [] [] = Unit
Chosen slots (s ∷ ss) (p ∷ ps) = AskedFor slots s p × Chosen slots ss ps
Chosen slots [] (p ∷ ps) = Nothing
Chosen slots (s ∷ ss) [] = Nothing

-- A pick that nobody asked for: the only option of a slot, for the whole slot.
pub record FilledIn (slots : List ComboSlot) (p : Pick) : Type 0 where
  pub in_combo : In p.slot slots
  pub only_option : p.slot.options ≡ p.option ∷ []
  pub whole : p.quantity ≡ p.slot.pick_count
  pub no_choices : p.modifier_ids ≡ []

AskedFor-later :
    (slot : ComboSlot) (slots : List ComboSlot) (s : ComboSelection) (p : Pick)
    → AskedFor slots s p
    → AskedFor (slot ∷ slots) s p
AskedFor-later slot slots s p h = record {
  in_combo = inr h.in_combo;
  in_slot = h.in_slot;
  same_option = h.same_option;
  amount = h.amount;
  choices = h.choices;
}

abbrev pick_of : ComboSelection → ComboSlot × ComboSlotOption → Pick
pick_of s so = record {
  slot = so.0;
  option = so.1;
  quantity = or_else s.quantity 1;
  modifier_ids = or_else s.modifier_ids [];
}

option_by_id-AskedFor :
    (slots : List ComboSlot) (s : ComboSelection) (so : ComboSlot × ComboSlotOption)
    → option_by_id slots s.option_id ≡ some so
    → AskedFor slots s (pick_of s so)
unfolding option_by_id
option_by_id-AskedFor [] s so e = cc
option_by_id-AskedFor (slot ∷ slots) s so e =
    let p = λ (o : ComboSlotOption). o.id == s.option_id in
    elim (Option-cases (find p slot.options)) [
      | inl absent ↦
          AskedFor-later slot slots s (pick_of s so)
            (option_by_id-AskedFor slots s so (rw (absent, option_by_id) at e))
      | inr (o, found) ↦
          let is : some (slot, o) ≡ some so = rw (found, option_by_id) at e in
          let passes = find-passes p slot.options o found in
          subst
            (λ (x : Option (ComboSlot × ComboSlotOption)).
              AskedFor (slot ∷ slots) s (pick_of s (or_else x so)))
            is
            (record {
              in_combo = inl refl;
              in_slot = find-In p slot.options o found;
              same_option = ground (arith, ==_iff o.id s.option_id);
              amount = refl;
              choices = refl;
            })
    ]

pub picks_of-Chosen :
    (slots : List ComboSlot) (ss : List ComboSelection) (ps : List Pick)
    → picks_of slots ss ≡ some ps
    → Chosen slots ss ps
unfolding picks_of
picks_of-Chosen slots [] ps e =
    subst (λ (x : Option (List Pick)). Chosen slots [] (or_else x [])) e tt
picks_of-Chosen slots (s ∷ ss) ps e = elim (Option-cases (option_by_id slots s.option_id)) [
  | inl absent ↦ absurd (let bad = rw (absent, picks_of) at e in cc)
  | inr (so, found) ↦ elim (Option-cases (picks_of slots ss)) [
    | inl stuck ↦ absurd (let bad = rw (found, picks_of, stuck) at e in cc)
    | inr (qs, rest) ↦
        let is : some (pick_of s so ∷ qs) ≡ some ps = rw (found, picks_of, rest) at e in
        subst (λ (x : Option (List Pick)). Chosen slots (s ∷ ss) (or_else x [])) is
          (option_by_id-AskedFor slots s so found, picks_of-Chosen slots ss qs rest)
  ]
]

-- Filling in adds picks after those that were asked for.
abbrev pub Fills : List ComboSlot → List Pick → List Pick → Type 0
Fills slots ps filled =
    (added : List Pick) × (filled ≡ ps ++ added) × All (λ (p : Pick). FilledIn slots p) added

fill_slot-Fills :
    (slot : ComboSlot) (slots : List ComboSlot) (ps : List Pick)
    → Fills (slot ∷ slots) ps (fill_slot slot ps)
unfolding fill_slot
fill_slot-Fills slot slots ps = go slot.options refl
  where
    nothing : Fills (slot ∷ slots) ps ps
    nothing = ([], sym (append-nil ps), tt)

    by : List ComboSlotOption → List Pick
    by os = elim os [
      | [] ↦ ps
      | o ∷ more ↦ elim more [
        | [] ↦
            if any (λ (p : Pick). p.slot.id == slot.id) ps then ps else ps ++ whole_slot slot o ∷ []
        | _ ∷ _ ↦ ps
      ]
    ]

    go : (os : List ComboSlotOption) → slot.options ≡ os → Fills (slot ∷ slots) ps (by os)
    go [] h = nothing
    go (o ∷ []) h = elim (Bool-cases (any (λ (p : Pick). p.slot.id == slot.id) ps)) [
      | inl there ↦ rw there nothing
      | inr missing ↦ rw missing (
        whole_slot slot o ∷ [],
        refl,
        (record { in_combo = inl refl; only_option = h; whole = refl; no_choices = refl }, tt),
      )
    ]
    go (o ∷ o' ∷ os) h = nothing

pub fill_slots-Fills :
    (slots : List ComboSlot) (ps filled : List Pick)
    → fill_slots slots ps ≡ some filled
    → Fills slots ps filled
unfolding fill_slots
fill_slots-Fills [] ps filled e =
    subst (λ (x : Option (List Pick)). Fills [] ps (or_else x [])) e ([], sym (append-nil ps), tt)
fill_slots-Fills (slot ∷ slots) ps filled e =
    elim (Bool-cases (picked slot.id (fill_slot slot ps) == slot.pick_count)) [
      | inl right ↦
          let (one, is_one, own) = fill_slot-Fills slot slots ps in
          let (others, is_all, rest) =
            fill_slots-Fills slots (fill_slot slot ps) filled (rw right at e) in
          (
            one ++ others,
            is_all ∙ ap (λ (xs : List Pick). xs ++ others) is_one ∙ append_assoc ps one others,
            All-append (λ (p : Pick). FilledIn (slot ∷ slots) p) one others own
                (All-weaken (λ (p : Pick). FilledIn slots p)
                  (λ (p : Pick). FilledIn (slot ∷ slots) p) others
                  (λ p h. record {
                    in_combo = inr h.in_combo;
                    only_option = h.only_option;
                    whole = h.whole;
                    no_choices = h.no_choices;
                  })
                  rest),
          )
      | inr wrong ↦ absurd (let stuck = rw wrong at e in cc)
    ]
