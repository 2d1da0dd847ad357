-- ===== src/Engine/Registry/Persistence.antt =====
-- A registry that is opened again from its file (LoRARegistry._persist, ._restore).
use na_ai.Base.{
  ℕ, String, ◌≡◌, refl, sym, ap, ◌∙◌, inl, inr, true, false, none, List, [], ◌∷◌, ◌++◌, arith,
  str_eq, eq_iff, Bool-cases,
}
use na_ai.Base.Dict.{Dict, lookup, contains, insert, values}
use na_ai.Base.Result.{Result, ok, err}
use na_ai.Engine.Registry.{
  AdapterRecord, LoraRegistry, KeyError, persist, register, activate, promote, deactivate,
  unregister, by_name, open_registry,
}
use na_ai.Engine.Registry.Invariant.{
  activate-known, activate-unknown, insert-IsKeyed, remove-IsKeyed, IsKeyed, IsConsistent,
  register-IsConsistent, promote-IsConsistent, deactivate-IsConsistent, unregister-IsConsistent,
}
use mathlib.Core.Path.{subst}
use mathlib.Core.List.{append-nil, append_assoc}

-- No key of the second dictionary is in the first.
abbrev IsFresh : Dict AdapterRecord → Dict AdapterRecord → Type 0
IsFresh acc [] = Unit
IsFresh acc ((k, a) ∷ d) = (lookup k acc ≡ none) × IsFresh acc d

insert-append :
    (k : String) (a : AdapterRecord) (acc : Dict AdapterRecord)
    → lookup k acc ≡ none
    → insert k a acc ≡ acc ++ ((k, a) ∷ [])
insert-append k a [] h = refl
insert-append k a ((j, b) ∷ acc) h = ground (arith, insert-append k a acc)

lookup-snoc :
    (j k : String) (a : AdapterRecord) (acc : Dict AdapterRecord)
    → lookup j acc ≡ none
    → str_eq k j ≡ false
    → lookup j (acc ++ ((k, a) ∷ [])) ≡ none
lookup-snoc j k a [] h n = ground arith
lookup-snoc j k a ((i, b) ∷ acc) h n = ground (arith, lookup-snoc j k a acc)

IsFresh-snoc :
    (k : String) (a : AdapterRecord) (acc d : Dict AdapterRecord)
    → lookup k d ≡ none
    → IsFresh acc d
    → IsFresh (acc ++ ((k, a) ∷ [])) d
IsFresh-snoc k a acc [] n h = tt
IsFresh-snoc k a acc ((j, b) ∷ d) n h = (
  lookup-snoc j k a acc h.0 (ground (arith, eq_iff j k, eq_iff k j)),
  IsFresh-snoc k a acc d (ground arith) h.1,
)

IsFresh-nil : (d : Dict AdapterRecord) → IsFresh [] d
IsFresh-nil [] = tt
IsFresh-nil ((k, a) ∷ d) = (refl, IsFresh-nil d)

by_name-cons :
    (k : String) (a : AdapterRecord) (acc : Dict AdapterRecord) (rs : List AdapterRecord)
    → k ≡ a.name
    → lookup k acc ≡ none
    → by_name acc (a ∷ rs) ≡ by_name (acc ++ ((k, a) ∷ [])) rs
unfolding by_name
by_name-cons k a acc rs e f =
    ap (λ d. by_name d rs) (ap (λ s. insert s a acc) (sym e) ∙ insert-append k a acc f)

by_name-append :
    (acc d : Dict AdapterRecord) → IsKeyed d → IsFresh acc d → by_name acc (values d) ≡ acc ++ d
unfolding by_name
by_name-append acc [] h f = sym (append-nil acc)
by_name-append acc ((k, a) ∷ d) h f =
    by_name-cons k a acc (values d) h.0 f.0
    ∙ by_name-append (acc ++ ((k, a) ∷ [])) d h.2 (IsFresh-snoc k a acc d h.1 f.1)
    ∙ append_assoc acc ((k, a) ∷ []) d

by_name-values : (d : Dict AdapterRecord) → IsKeyed d → by_name [] (values d) ≡ d
by_name-values d h = by_name-append [] d h (IsFresh-nil d)

-- The calls that change a registry.
pub data Command : Type 0 where
  register_as : String → String → ℕ → Command
  activate_name : String → Command
  drop_active : Command
  remove_name : String → Command

-- A call that raises `KeyError` changes nothing.
abbrev settled : Result KeyError LoraRegistry → LoraRegistry → LoraRegistry
settled (ok r') r = r'
settled (err e) r = r

pub apply : Command → LoraRegistry → LoraRegistry
apply (register_as name path now) r = register name path now r
apply (activate_name name) r = settled (activate name r) r
apply drop_active r = deactivate r
apply (remove_name name) r = unregister name r

pub run : List Command → LoraRegistry → LoraRegistry
run [] r = r
run (c ∷ cs) r = run cs (apply c r)

abbrev IsRestorable : LoraRegistry → Type 0
IsRestorable r = IsConsistent r × (r.persistent ≡ true) × (open_registry true r.file ≡ r)

persist-reopens :
    (r : LoraRegistry)
    → r.persistent ≡ true
    → IsKeyed r.loaded
    → open_registry true (persist r).file ≡ persist r
unfolding persist open_registry
persist-reopens r p h = ground (arith, by_name-values r.loaded h)

persist-IsRestorable :
    (r : LoraRegistry)
    → IsConsistent (persist r)
    → r.persistent ≡ true
    → IsKeyed r.loaded
    → IsRestorable (persist r)
persist-IsRestorable r c p k = (c, (unfold persist in ground arith), persist-reopens r p k)

promote-IsRestorable :
    (name : String) (r : LoraRegistry)
    → contains name r.loaded ≡ true
    → IsRestorable r
    → IsRestorable (promote name r)
unfolding promote
promote-IsRestorable name r known h =
    persist-IsRestorable _ (promote-IsConsistent name r known h.0) h.1 h.0.keyed

apply-IsRestorable : (c : Command) (r : LoraRegistry) → IsRestorable r → IsRestorable (apply c r)
unfolding apply register deactivate unregister
apply-IsRestorable (register_as name path now) r h =
    persist-IsRestorable _ (register-IsConsistent name path now r h.0) h.1
      (insert-IsKeyed name _ r.loaded refl h.0.keyed)
apply-IsRestorable (activate_name name) r h = elim (Bool-cases (contains name r.loaded)) [
  | inl known ↦
      subst (λ x. IsRestorable (settled x r)) (sym (activate-known name r known))
        (promote-IsRestorable name r known h)
  | inr unknown ↦ subst (λ x. IsRestorable (settled x r)) (sym (activate-unknown name r unknown)) h
]
apply-IsRestorable drop_active r h =
    persist-IsRestorable _ (deactivate-IsConsistent r h.0) h.1 h.0.keyed
apply-IsRestorable (remove_name name) r h =
    persist-IsRestorable _ (unregister-IsConsistent name r h.0) h.1
      (remove-IsKeyed name r.loaded h.0.keyed)

run-IsRestorable : (cs : List Command) (r : LoraRegistry) → IsRestorable r → IsRestorable (run cs r)
unfolding run
run-IsRestorable [] r h = h
run-IsRestorable (c ∷ cs) r h = run-IsRestorable cs (apply c r) (apply-IsRestorable c r h)

-- After any calls on a persistent registry that began with no file, those that raise included, a new
-- process that opens the file sees the same adapters, active adapter and rollback target, and the
-- registry is consistent.
pub reopen-run :
    (cs : List Command)
    → IsConsistent (run cs (open_registry true none))
      × (open_registry true (run cs (open_registry true none)).file
          ≡ run cs (open_registry true none))
unfolding open_registry
reopen-run cs =
    let h = run-IsRestorable cs (open_registry true none) (ground arith, refl, refl) in (h.0, h.2)
