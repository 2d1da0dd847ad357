-- ===== src/Engine/Client/Rollback.antt =====
-- Rolling back (ModelEngine.rollback_lora), and loads that find every slot protected.
use na_ai.Base.{
  String, ◌≡◌, refl, sym, ap, ◌∙◌, inl, inr, true, Option, none, some, arith, Bool-cases,
  Option-cases, opt_eq, opt_eq→eq,
}
use na_ai.Base.Dict.{contains}
use na_ai.Base.Result.{ok}
use na_ai.Engine.Registry.{LoraRegistry, promote, deactivate}
use na_ai.Engine.Client.{rollback, rollback_to, reactivated}
use na_ai.Engine.Registry.Invariant.{
  IsConsistent, promote-IsConsistent, deactivate-IsConsistent, deactivate_fields, promote_fields,
  activate-known,
}

-- The registry that a rollback of `r` leads to: the active adapter and the rollback target have
-- changed places, and the same adapters are loaded.
pub record IsSwapped (r r' : LoraRegistry) : Type 0 where
  pub consistent : IsConsistent r'
  pub loaded_kept : r'.loaded ≡ r.loaded
  pub now_active : r'.active ≡ r.previous
  pub now_previous : r'.previous ≡ r.active

deactivate-previous : (r : LoraRegistry) → r.previous ≡ none → (deactivate r).previous ≡ r.active
deactivate-previous r e = elim (Option-cases r.active) [
  | inl base ↦ (deactivate_fields r).2 base ∙ e ∙ sym base
  | inr (a, on) ↦ (deactivate_fields r).3 a on
]

promote-previous :
    (r : LoraRegistry) (target : String)
    → r.previous ≡ some target
    → (promote target r).previous ≡ r.active
promote-previous r target e = elim (Bool-cases (opt_eq r.active (some target))) [
  | inl same ↦
      rw ((promote_fields target r).2, same) (e ∙ sym (opt_eq→eq r.active (some target) same))
  | inr other ↦ rw ((promote_fields target r).2, other)
]

rolled_back :
    (r : LoraRegistry) (o : Option String)
    → IsConsistent r
    → r.previous ≡ o
    → (r' : LoraRegistry) × (rollback_to o r ≡ ok (o, r')) × IsSwapped r r'
unfolding rollback_to
rolled_back r none h e = (
  deactivate r,
  refl,
  record {
    consistent = deactivate-IsConsistent r h;
    loaded_kept = (deactivate_fields r).0;
    now_active = (deactivate_fields r).1 ∙ sym e;
    now_previous = deactivate-previous r e;
  },
)
rolled_back r (some target) h e =
    let known : contains target r.loaded ≡ true = ground arith in
    (
      promote target r,
      ap (reactivated target) (activate-known target r known),
      record {
        consistent = promote-IsConsistent target r known h;
        loaded_kept = (promote_fields target r).0;
        now_active = (promote_fields target r).1 ∙ sym e;
        now_previous = promote-previous r target e;
      },
    )

-- On a consistent registry a rollback does not raise. It makes the rollback target active, or the
-- base model if there is none, keeps every adapter loaded, and makes the adapter that was active the
-- rollback target: a second rollback restores both.
pub rollback_twice :
    (r : LoraRegistry)
    → IsConsistent r
    → (r' r'' : LoraRegistry) × (rollback r ≡ ok (r.previous, r'))
      × IsSwapped r r'
      × (rollback r' ≡ ok (r.active, r''))
      × (r''.active ≡ r.active)
      × (r''.previous ≡ r.previous)
      × (r''.loaded ≡ r.loaded)
unfolding rollback
rollback_twice r h =
    let (r', first, s) = rolled_back r r.previous h refl in
    let (r'', second, s') = rolled_back r' r.active s.consistent s.now_previous in
    (
      r',
      r'',
      first,
      s,
      rw s.now_previous second,
      s'.now_active ∙ s.now_previous,
      s'.now_previous ∙ s.now_active,
      s'.loaded_kept ∙ s.loaded_kept,
    )
