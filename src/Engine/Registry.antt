-- ===== src/Engine/Registry.antt =====
-- The adapter registry of omniai/engine/lora.py. The file behind `persist_path` is the JSON object
-- that it holds, or `none` while there is no file; load times are natural numbers.
pub mod Invariant
pub mod Eviction
pub mod Persistence
mod Tests
use na_ai.Base.{
  ℕ, zero, suc, ◌+◌, ◌-◌, ◌*◌, ◌/◌, ◌%◌, ◌^◌, ◌≤◌, ◌<◌, min, max, String, ◌≡◌, refl, sym, ap, ◌∙◌,
  ◌≢◌, ◌↔◌, ◌⊎◌, inl, inr, Bool, true, false, ◌&&◌, ◌||◌, not, Option, none, some, List, [], ◌∷◌,
  ◌++◌, map, arith, str_eq, eq_iff, eq_refl, ltb, leb, ◌==◌, if◌then◌else◌, leb→le, le→leb,
  Bool-cases, Option-cases, truthy, opt_eq, length, take, drop, filter, last?, length-append,
  length-filter, length-take, All,
}
use na_ai.Base.Dict.{Dict, lookup, contains, insert, remove, values}
use na_ai.Base.Result.{Result, ok, err}

pub record AdapterRecord : Type 0 where
  pub name : String
  pub path : String
  pub loaded_at : ℕ

-- The object that `_persist` writes.
pub record Saved : Type 0 where
  pub loaded : List AdapterRecord
  pub active : Option String
  pub previous : Option String

pub record LoraRegistry : Type 0 where
  pub persistent : Bool
  pub file : Option Saved
  pub loaded : Dict AdapterRecord
  pub active : Option String
  pub previous : Option String

pub data KeyError : Type 0 where
  not_loaded : KeyError

snapshot : LoraRegistry → Saved
snapshot r = record { loaded = values r.loaded; active = r.active; previous = r.previous }

persist : LoraRegistry → LoraRegistry
unfolding snapshot
persist r = if r.persistent then record r { file = some (snapshot r) } else r

unfoldable pub register : String → String → ℕ → LoraRegistry → LoraRegistry
unfolding persist
register name path now r = persist (record r {
  loaded = insert name (record { name = name; path = path; loaded_at = now }) r.loaded;
})

-- The assignments of `activate`, once the name is known to be loaded.
pub promote : String → LoraRegistry → LoraRegistry
unfolding persist
promote name r = persist (record r {
  previous = if opt_eq r.active (some name) then r.previous else r.active;
  active = some name;
})

unfoldable pub activate : String → LoraRegistry → Result KeyError LoraRegistry
unfolding promote
activate name r = if contains name r.loaded then ok (promote name r) else err not_loaded

-- `if self.active is not None: self.previous = self.active`
abbrev kept : Option String → Option String → Option String
kept none previous = previous
kept (some a) previous = some a

pub deactivate : LoraRegistry → LoraRegistry
unfolding persist
deactivate r = persist (record r { previous = kept r.active r.previous; active = none })

-- `if self.active == name: self.active = None`, and so for `previous`.
abbrev pub cleared : String → Option String → Option String
cleared name o = if opt_eq o (some name) then none else o

-- `LoRARegistry.remove`
unfoldable pub unregister : String → LoraRegistry → LoraRegistry
unfolding persist
unregister name r = persist (record r {
  loaded = remove name r.loaded;
  active = cleared name r.active;
  previous = cleared name r.previous;
})

-- `min(candidates, key=lambda r: r.loaded_at)`: the first of the oldest.
pub oldest : AdapterRecord → List AdapterRecord → AdapterRecord
oldest best [] = best
oldest best (r ∷ rs) = oldest (if ltb r.loaded_at best.loaded_at then r else best) rs

-- `r.name not in {self.active, self.previous}`
abbrev pub is_evictable : LoraRegistry → AdapterRecord → Bool
is_evictable r a = not (opt_eq r.active (some a.name) || opt_eq r.previous (some a.name))

abbrev pub oldest_name : List AdapterRecord → Option String
oldest_name [] = none
oldest_name (a ∷ rs) = some (oldest a rs).name

unfoldable pub eviction_candidate : ℕ → LoraRegistry → Option String
unfolding oldest
eviction_candidate capacity r =
    if ltb (length r.loaded) capacity
    then none
    else oldest_name (filter (is_evictable r) (values r.loaded))

-- The dictionary comprehension of `_restore`.
pub by_name : Dict AdapterRecord → List AdapterRecord → Dict AdapterRecord
by_name d [] = d
by_name d (a ∷ rs) = by_name (insert a.name a d) rs

-- `LoRARegistry(persist_path)`: what a new process sees of the file.
pub open_registry : Bool → Option Saved → LoraRegistry
unfolding by_name
open_registry false file = record {
  persistent = false;
  file = file;
  loaded = [];
  active = none;
  previous = none;
}
open_registry true none = record {
  persistent = true;
  file = none;
  loaded = [];
  active = none;
  previous = none;
}
open_registry true (some s) = record {
  persistent = true;
  file = some s;
  loaded = by_name [] s.loaded;
  active = s.active;
  previous = s.previous;
}
