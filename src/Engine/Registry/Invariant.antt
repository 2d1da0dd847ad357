-- ===== src/Engine/Registry/Invariant.antt =====
-- What holds of the registry between two operations (LoRARegistry).
use na_ai.Base.{
  ℕ, String, ◌≡◌, refl, inl, inr, Bool, true, false, Option, none, some, [], ◌∷◌, arith, eq_iff,
  if◌then◌else◌, Bool-cases, opt_eq, opt_eq→eq, opt_eq_refl,
}
use na_ai.Base.Dict.{
  Dict, lookup, contains, insert, remove, lookup-insert, lookup-remove, contains-insert,
  contains-remove,
}
use na_ai.Base.Result.{ok, err}
use na_ai.Engine.Registry.{
  AdapterRecord, LoraRegistry, not_loaded, register, activate, promote, deactivate, cleared,
  unregister,
}

-- The optional name, if there is one, is that of a loaded adapter.
abbrev pub is_held : Option String → Dict AdapterRecord → Bool
is_held none d = true
is_held (some a) d = contains a d

-- Every key is its record's name, and no key stands twice.
abbrev pub IsKeyed : Dict AdapterRecord → Type 0
IsKeyed [] = Unit
IsKeyed ((k, a) ∷ d) = (k ≡ a.name) × (lookup k d ≡ none) × IsKeyed d

-- The active adapter and the rollback target are loaded, and they differ unless both are the base
-- model.
pub record IsConsistent (r : LoraRegistry) : Type 0 where
  pub keyed : IsKeyed r.loaded
  pub active_held : is_held r.active r.loaded ≡ true
  pub previous_held : is_held r.previous r.loaded ≡ true
  pub differ : opt_eq r.active r.previous ≡ true → r.active ≡ none

pub insert-IsKeyed :
    (k : String) (a : AdapterRecord) (d : Dict AdapterRecord)
    → k ≡ a.name
    → IsKeyed d
    → IsKeyed (insert k a d)
insert-IsKeyed k a [] e h = (e, refl, tt)
insert-IsKeyed k a ((j, b) ∷ d) e h =
    ground (arith, insert-IsKeyed k a d e h.2, lookup-insert k j a d, eq_iff j k, eq_iff k j)

pub remove-IsKeyed : (k : String) (d : Dict AdapterRecord) → IsKeyed d → IsKeyed (remove k d)
remove-IsKeyed k [] h = tt
remove-IsKeyed k ((j, b) ∷ d) h = ground (arith, remove-IsKeyed k d h.2, lookup-remove k j d)

is_held-insert :
    (o : Option String) (k : String) (a : AdapterRecord) (d : Dict AdapterRecord)
    → is_held o d ≡ true
    → is_held o (insert k a d) ≡ true
is_held-insert none k a d h = refl
is_held-insert (some j) k a d h = rw (contains-insert k j a d) (ground arith)

is_held-remove :
    (o : Option String) (k : String) (d : Dict AdapterRecord)
    → is_held o d ≡ true
    → is_held (cleared k o) (remove k d) ≡ true
is_held-remove none k d h = refl
is_held-remove (some j) k d h = ground (arith, contains-remove k j d, eq_iff j k, eq_iff k j)

pub register-IsConsistent :
    (name path : String) (now : ℕ) (r : LoraRegistry)
    → IsConsistent r
    → IsConsistent (register name path now r)
unfolding register
register-IsConsistent name path now r h =
    let a : AdapterRecord = record { name = name; path = path; loaded_at = now } in
    ground (
      arith,
      insert-IsKeyed name a r.loaded refl h.keyed,
      is_held-insert r.active name a r.loaded h.active_held,
      is_held-insert r.previous name a r.loaded h.previous_held,
    )

pub unregister-IsConsistent :
    (name : String) (r : LoraRegistry) → IsConsistent r → IsConsistent (unregister name r)
unfolding unregister
unregister-IsConsistent name r h = ground (
  arith,
  remove-IsKeyed name r.loaded h.keyed,
  is_held-remove r.active name r.loaded h.active_held,
  is_held-remove r.previous name r.loaded h.previous_held,
)

pub deactivate-IsConsistent : (r : LoraRegistry) → IsConsistent r → IsConsistent (deactivate r)
unfolding deactivate
deactivate-IsConsistent r h = ground arith

promote_differ :
    (name : String) (r : LoraRegistry)
    → IsConsistent r
    → (opt_eq (some name) (if opt_eq r.active (some name) then r.previous else r.active)) ≡ true
    → some name ≡ none
promote_differ name r h e = elim (Bool-cases (opt_eq r.active (some name))) [
  | inl same ↦
      let a : r.active ≡ some name = opt_eq→eq r.active (some name) same in
      let p : some name ≡ r.previous = opt_eq→eq (some name) r.previous (ground arith) in
      cc (a, h.differ (rw (a, ← p) (opt_eq_refl (some name))))
  | inr other ↦
      let p : some name ≡ r.active = opt_eq→eq (some name) r.active (ground arith) in
      let q : opt_eq r.active (some name) ≡ true = rw p (opt_eq_refl r.active) in cc
]

pub promote-IsConsistent :
    (name : String) (r : LoraRegistry)
    → contains name r.loaded ≡ true
    → IsConsistent r
    → IsConsistent (promote name r)
unfolding promote
promote-IsConsistent name r known h = ground (arith, promote_differ name r h)

pub register_fields :
    (name path : String) (now : ℕ) (r : LoraRegistry)
    → ((register name path now r).loaded
        ≡ insert name (record { name = name; path = path; loaded_at = now }) r.loaded)
      × ((register name path now r).active ≡ r.active)
      × ((register name path now r).previous ≡ r.previous)
unfolding register
register_fields name path now r = (ground arith, ground arith, ground arith)

pub promote_fields :
    (name : String) (r : LoraRegistry)
    → ((promote name r).loaded ≡ r.loaded)
      × ((promote name r).active ≡ some name)
      × ((promote name r).previous ≡ (if opt_eq r.active (some name) then r.previous else r.active))
unfolding promote
promote_fields name r = (ground arith, ground arith, ground arith)

pub unregister_fields :
    (name : String) (r : LoraRegistry)
    → ((unregister name r).loaded ≡ remove name r.loaded)
      × ((unregister name r).active ≡ cleared name r.active)
      × ((unregister name r).previous ≡ cleared name r.previous)
unfolding unregister
unregister_fields name r = (ground arith, ground arith, ground arith)

pub activate-known :
    (name : String) (r : LoraRegistry)
    → contains name r.loaded ≡ true
    → activate name r ≡ ok (promote name r)
unfolding activate
activate-known name r h = ground arith

pub activate-unknown :
    (name : String) (r : LoraRegistry)
    → contains name r.loaded ≡ false
    → activate name r ≡ err not_loaded
unfolding activate
activate-unknown name r h = ground arith

pub deactivate_fields :
    (r : LoraRegistry)
    → ((deactivate r).loaded ≡ r.loaded)
      × ((deactivate r).active ≡ none)
      × ((r.active ≡ none) → (deactivate r).previous ≡ r.previous)
      × ((a : String) → r.active ≡ some a → (deactivate r).previous ≡ r.active)
unfolding deactivate
deactivate_fields r = (ground arith, ground arith, λ e. ground arith, λ a e. ground arith)
