-- ===== src/Models/Anthropic/Turns.antt =====
-- What the provider is sent alternates, and has every block of the history (_to_anthropic).
use na_ai.Base.{
  ◌≡◌, refl, sym, ap, inl, inr, Bool, true, false, List, [], ◌∷◌, ◌++◌, map, arith, Bool-cases, All,
  String,
}
use na_ai.Base.Result.{Result, ok, ok_of_chain, ok-injective}
use na_ai.Protocol.{Role, system, user, assistant, tool}
use na_ai.Models.Wire.{WireMessage, tool_output, tool_request, plain}
use na_ai.Models.Anthropic.{
  Block, Turn, Part, prompt, turn, use_blocks, part_of, parts_of, turns_of, same_role, as_blocks,
  add_turn, merged, to_anthropic,
}
use mathlib.Core.Path.{subst}
use mathlib.Core.List.{append-nil, append_assoc, map-append}

-- No turn has the role of the one before it.
abbrev pub Alternates : List Turn → Type 0
Alternates [] = Unit
Alternates (x ∷ []) = Unit
Alternates (x ∷ (y ∷ xs)) = (same_role x.role y.role ≡ false) × Alternates (y ∷ xs)

-- The blocks of some turns in order, each with its role.
abbrev pub tagged : List Turn → List (Role × Block)
tagged [] = []
tagged (x ∷ xs) = map (λ b. (x.role, b)) (as_blocks x.content) ++ tagged xs

same_role-eq : (r s : Role) → same_role r s ≡ true → r ≡ s
same_role-eq system system h = refl
same_role-eq user user h = refl
same_role-eq assistant assistant h = refl
same_role-eq tool tool h = refl
same_role-eq r s h = ground arith

add_turn-Alternates : (xs : List Turn) (m : Turn) → Alternates xs → Alternates (add_turn xs m)
unfolding add_turn
add_turn-Alternates [] m h = tt
add_turn-Alternates (x ∷ []) m h = elim (Bool-cases (same_role x.role m.role)) [
  | inl same ↦ rw same tt
  | inr other ↦ rw other (other, tt)
]
add_turn-Alternates (x ∷ (y ∷ [])) m h = elim (Bool-cases (same_role y.role m.role)) [
  | inl same ↦ rw same (h.0, tt)
  | inr other ↦ rw other (h.0, (other, tt))
]
add_turn-Alternates (x ∷ (y ∷ (z ∷ xs))) m h = (h.0, add_turn-Alternates (y ∷ (z ∷ xs)) m h.1)

add_turn-tagged :
    (xs : List Turn) (m : Turn) → tagged (add_turn xs m) ≡ tagged xs ++ tagged (m ∷ [])
unfolding add_turn
add_turn-tagged [] m = refl
add_turn-tagged (x ∷ []) m = elim (Bool-cases (same_role x.role m.role)) [
  | inl same ↦ rw (same, sym (same_role-eq x.role m.role same)) (simp (map-append, append-nil))
  | inr other ↦ rw other (simp (append-nil))
]
add_turn-tagged (x ∷ (y ∷ xs)) m =
    rw (add_turn-tagged (y ∷ xs) m) (sym (append_assoc _ (tagged (y ∷ xs)) (tagged (m ∷ []))))

merged-Alternates : (ms done : List Turn) → Alternates done → Alternates (merged done ms)
unfolding merged
merged-Alternates [] done h = h
merged-Alternates (m ∷ ms) done h =
    merged-Alternates ms (add_turn done m) (add_turn-Alternates done m h)

merged-tagged : (ms done : List Turn) → tagged (merged done ms) ≡ tagged done ++ tagged ms
unfolding merged
merged-tagged [] done = sym (append-nil (tagged done))
merged-tagged (m ∷ ms) done =
    rw (merged-tagged ms (add_turn done m), add_turn-tagged done m)
      (simp (append-nil, append_assoc))

-- The provider knows the user's turns and the assistant's.
abbrev pub is_speaker : Role → Bool
is_speaker user = true
is_speaker assistant = true
is_speaker _ = false

abbrev pub IsSpoken : List Turn → Type 0
IsSpoken = All (λ (t : Turn). is_speaker t.role ≡ true)

abbrev IsSpokenPart : Part → Type 0
IsSpokenPart (prompt s) = Unit
IsSpokenPart (turn r c) = is_speaker r ≡ true

add_turn-IsSpoken :
    (xs : List Turn) (m : Turn) → IsSpoken xs → is_speaker m.role ≡ true → IsSpoken (add_turn xs m)
unfolding add_turn
add_turn-IsSpoken [] m h k = (k, tt)
add_turn-IsSpoken (x ∷ []) m h k = elim (Bool-cases (same_role x.role m.role)) [
  | inl same ↦ rw same h
  | inr other ↦ rw other (h.0, (k, tt))
]
add_turn-IsSpoken (x ∷ (y ∷ xs)) m h k = (h.0, add_turn-IsSpoken (y ∷ xs) m h.1 k)

merged-IsSpoken : (ms done : List Turn) → IsSpoken done → IsSpoken ms → IsSpoken (merged done ms)
unfolding merged
merged-IsSpoken [] done h k = h
merged-IsSpoken (m ∷ ms) done h k =
    merged-IsSpoken ms (add_turn done m) (add_turn-IsSpoken done m h k.0) k.1

turns_of-IsSpoken : (ps : List Part) → All IsSpokenPart ps → IsSpoken (turns_of ps)
turns_of-IsSpoken [] h = tt
turns_of-IsSpoken (prompt s ∷ ps) h = turns_of-IsSpoken ps h.1
turns_of-IsSpoken (turn r c ∷ ps) h = (h.0, turns_of-IsSpoken ps h.1)

module _ {E : Type 0} (loads : String → Result E String) where
  part_of-IsSpokenPart : (m : WireMessage) (p : Part) → part_of loads m ≡ ok p → IsSpokenPart p
  unfolding part_of
  part_of-IsSpokenPart (tool_output id s) p h = subst IsSpokenPart (ok-injective h) refl
  part_of-IsSpokenPart (tool_request content []) p h = subst IsSpokenPart (ok-injective h) refl
  part_of-IsSpokenPart (tool_request content (c ∷ cs)) p h =
      let (uses, q, e) = ok_of_chain (use_blocks loads (c ∷ cs)) _ h in
      subst IsSpokenPart (ok-injective q) refl
  part_of-IsSpokenPart (plain system s) p h = subst IsSpokenPart (ok-injective h) tt
  part_of-IsSpokenPart (plain user s) p h = subst IsSpokenPart (ok-injective h) refl
  part_of-IsSpokenPart (plain assistant s) p h = subst IsSpokenPart (ok-injective h) refl
  part_of-IsSpokenPart (plain tool s) p h = subst IsSpokenPart (ok-injective h) refl

  parts_of-IsSpokenPart :
      (ms : List WireMessage) (ps : List Part) → parts_of loads ms ≡ ok ps → All IsSpokenPart ps
  unfolding parts_of
  parts_of-IsSpokenPart [] ps h = subst (All IsSpokenPart) (ok-injective h) tt
  parts_of-IsSpokenPart (m ∷ ms) ps h =
      let (p, more, first) = ok_of_chain (part_of loads m) _ h in
      let (rest, same, others) = ok_of_chain (parts_of loads ms) _ more in
      subst (All IsSpokenPart) (ok-injective same)
        (part_of-IsSpokenPart m p first, parts_of-IsSpokenPart ms rest others)

-- A history that is converted becomes turns of the user and the assistant, of which no two
-- neighbours have one role, and the blocks of all its messages in their order, each under its role:
-- joining turns loses none and moves none.
pub to_anthropic-Alternates :
    {E : Type 0} (loads : String → Result E String) (ms : List WireMessage) (prompt_text : String)
    (turns : List Turn)
    → to_anthropic loads ms ≡ ok (prompt_text, turns)
    → Alternates turns
      × IsSpoken turns
      × ((ps : List Part) × (parts_of loads ms ≡ ok ps) × (tagged turns ≡ tagged (turns_of ps)))
unfolding to_anthropic
to_anthropic-Alternates loads ms prompt_text turns h =
    let (ps, q, e) = ok_of_chain (parts_of loads ms) _ h in
    let same : merged [] (turns_of ps) ≡ turns = ap (λ x. x.1) (ok-injective q) in
    rw (sym same) (
      merged-Alternates (turns_of ps) [] tt,
      merged-IsSpoken (turns_of ps) [] tt
          (turns_of-IsSpoken ps (parts_of-IsSpokenPart loads ms ps e)),
      (ps, e, merged-tagged (turns_of ps) []),
    )
