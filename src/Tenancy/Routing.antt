-- ===== src/Tenancy/Routing.antt =====
-- Which agent a name leads to (AgentRegistry).
mod Tests
use na_ai.Base.{
  String, ◌≡◌, refl, ap, ◌∙◌, inl, inr, Bool, true, false, Option, none, some, List, [], ◌∷◌, arith,
  str_eq, eq_iff, if◌then◌else◌, Bool-cases,
}
use na_ai.Base.Dict.{Dict, lookup, contains, insert, lookup-insert, contains-insert}
use na_ai.Base.Result.{Result, ok, err}
use na_ai.Tenancy.{
  AgentProfile, AgentRegistry, Error, new, register, found, by_default, or_default, resolve,
}

module _ {E : Type 0} where
  abbrev kept : Result (Error E) AgentRegistry → AgentRegistry → AgentRegistry
  kept (ok r') r = r'
  kept (err x) r = r

module _ (E : Type 0) where
  -- Registers profiles one by one; a refused one changes nothing.
  unfoldable pub register_all : List AgentProfile → AgentRegistry → AgentRegistry
  register_all [] r = r
  register_all (p ∷ ps) r = register_all ps (kept (register {E = E} p r) r)

  register-lookup :
      (p q : AgentProfile) (k : String) (r : AgentRegistry)
      → lookup k r.profiles ≡ some q
      → lookup k (kept (register {E = E} p r) r).profiles ≡ some q
  unfolding register
  register-lookup p q k r e =
      ground (arith, e, lookup-insert p.name k p r.profiles, eq_iff p.name k)

  register_all-lookup :
      (ps : List AgentProfile) (q : AgentProfile) (k : String) (r : AgentRegistry)
      → lookup k r.profiles ≡ some q
      → lookup k (register_all ps r).profiles ≡ some q
  unfolding register_all
  register_all-lookup [] q k r e = e
  register_all-lookup (p ∷ ps) q k r e =
      register_all-lookup ps q k (kept (register {E = E} p r) r) (register-lookup p q k r e)

  -- A name that leads to a profile leads to it after any further registrations: no tenant can take
  -- over another one's name.
  pub resolve-register_all :
      (ps : List AgentProfile) (q : AgentProfile) (k : String) (r : AgentRegistry)
      → lookup k r.profiles ≡ some q
      → resolve {E = E} (some k) (register_all ps r) ≡ ok q
  unfolding resolve
  resolve-register_all ps q k r e =
      ap (λ o. or_default o (register_all ps r)) (register_all-lookup ps q k r e)

  -- The profile that names without one fall back to.
  record IsFallback (p : AgentProfile) (r : AgentRegistry) : Type 0 where
    name : String
    is_default : r.default ≡ some name
    known : lookup name r.profiles ≡ some p

  first-IsFallback :
      (p : AgentProfile) → IsFallback p (kept (register {E = E} p (new none)) (new none))
  unfolding register
  first-IsFallback p = record {
    name = p.name;
    is_default = refl;
    known = ground (arith, eq_iff p.name p.name);
  }

  register-default :
      (q : AgentProfile) (d : String) (r : AgentRegistry)
      → r.default ≡ some d
      → (kept (register {E = E} q r) r).default ≡ some d
  unfolding register
  register-default q d r e = ground arith

  register_all-IsFallback :
      (p : AgentProfile) (ps : List AgentProfile) (r : AgentRegistry)
      → IsFallback p r
      → IsFallback p (register_all ps r)
  unfolding register_all
  register_all-IsFallback p [] r h = h
  register_all-IsFallback p (q ∷ ps) r h =
      register_all-IsFallback p ps (kept (register {E = E} q r) r) (record {
        name = h.name;
        is_default = register-default q h.name r h.is_default;
        known = register-lookup q p h.name r h.known;
      })

  fallback-found :
      (p : AgentProfile) (r : AgentRegistry)
      → IsFallback p r
      → by_default {E = E} r.default r ≡ ok p
  fallback-found p r h = rw (h.is_default, h.known) refl

  resolve_found :
      (p : AgentProfile) (r : AgentRegistry) (name : Option String)
      → IsFallback p r
      → (q : AgentProfile) × (resolve {E = E} name r ≡ ok q)
        × ((k : String) → name ≡ some k → contains k r.profiles ≡ false → q ≡ p)
  unfolding resolve
  resolve_found p r none h = (p, fallback-found p r h, λ k e f. refl)
  resolve_found p r (some n) h = go (lookup n r.profiles) refl
    where
      go :
          (o : Option AgentProfile)
          → lookup n r.profiles ≡ o
          → (q : AgentProfile) × (or_default {E = E} (lookup n r.profiles) r ≡ ok q)
            × ((k : String)
                → ◌≡◌ {A = Option String} (some n) (some k)
                → contains k r.profiles ≡ false
                → q ≡ p)
      go none e = (p, rw e (fallback-found p r h), λ k same f. refl)
      go (some q) e = (q, rw e refl, λ k same f. absurd (let s : n ≡ k = cc in ground arith))

  -- Once one agent is registered in a registry without a default, no message is without an agent:
  -- any name resolves, after any further registrations, and an unknown name resolves to the first
  -- agent registered.
  pub resolve_total :
      (p : AgentProfile) (ps : List AgentProfile) (name : Option String)
      → (q : AgentProfile) × (resolve {E = E} name (register_all (p ∷ ps) (new none)) ≡ ok q)
        × ((k : String)
            → name ≡ some k
            → contains k (register_all (p ∷ ps) (new none)).profiles ≡ false
            → q ≡ p)
  unfolding register_all
  resolve_total p ps name =
      resolve_found p (register_all ps (kept (register {E = E} p (new none)) (new none))) name (
        register_all-IsFallback p ps (kept (register {E = E} p (new none)) (new none))
          (first-IsFallback p))
