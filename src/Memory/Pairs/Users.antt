-- ===== src/Memory/Pairs/Users.antt =====
-- Each pair has a user's message of its own (format_training_pairs).
mod Tests
use na_ai.Base.{
  ℕ, ◌+◌, ◌≤◌, String, ◌≡◌, refl, ap, ◌∙◌, inl, inr, Bool, true, false, Option, none, some, List,
  [], ◌∷◌, ◌++◌, arith, str_eq, if◌then◌else◌, Bool-cases, length, length-append,
}
use na_ai.Base.Dict.{Dict, lookup, insert, values}
use na_ai.Protocol.{Role, system, user, assistant, tool, Value}
use na_ai.Memory.Buffer.{Interaction}
use na_ai.Memory.Pairs.{
  Progress, Pair, found, grouped, step_as, session_pairs, all_pairs, format_training_pairs,
}

abbrev of_user : Role → ℕ
of_user user = 1
of_user _ = 0

-- How many of the rows are a user's.
abbrev pub users : List Interaction → ℕ
users [] = 0
users (r ∷ rs) = of_user r.role + users rs

abbrev users_of : List (List Interaction) → ℕ
users_of [] = 0
users_of (rs ∷ rest) = users rs + users_of rest

abbrev pending : Option String → ℕ
pending none = 0
pending (some q) = 1

step_le :
    (show : Value → String) (sys : Option String) (role : Role) (q : Option String)
    (r : Interaction) (p : Progress)
    → p.prompt ≡ q
    → length (step_as show sys role q r p).pairs + pending (step_as show sys role q r p).prompt
      ≤ length p.pairs + pending q + of_user role
step_le show sys user q r p e = omega arith
step_le show sys tool none r p e = rw e (omega arith)
step_le show sys tool (some q) r p e = rw e (omega arith)
step_le show sys assistant none r p e = rw e (omega arith)
step_le show sys assistant (some q) r p e = omega (arith, length-append p.pairs (_ ∷ []))
step_le show sys system none r p e = rw e (omega arith)
step_le show sys system (some q) r p e = rw e (omega arith)

session_le :
    (show : Value → String) (sys : Option String) (rs : List Interaction) (p : Progress)
    → length (session_pairs show sys rs p).pairs ≤ length p.pairs + pending p.prompt + users rs
unfolding session_pairs
session_le show sys [] p = omega arith
session_le show sys (r ∷ rs) p = omega (
  arith,
  session_le show sys rs (step_as show sys r.role p.prompt r p),
  step_le show sys r.role p.prompt r p refl,
)

all_le :
    (show : Value → String) (sys : Option String) (rss : List (List Interaction)) (done : List Pair)
    → length (all_pairs show sys rss done) ≤ length done + users_of rss
unfolding all_pairs
all_le show sys [] done = omega arith
all_le show sys (rs ∷ rest) done =
    let p : Progress = record { prompt = none; context = []; pairs = done } in
    omega
      (arith, session_le show sys rs p, all_le show sys rest (session_pairs show sys rs p).pairs)

users-append :
    (rs : List Interaction) (r : Interaction) → users (rs ++ (r ∷ [])) ≡ users rs + of_user r.role
users-append [] r = omega arith
users-append (x ∷ rs) r = omega (arith, users-append rs r)

users_of-insert :
    (k : String) (v : List Interaction) (d : Dict (List Interaction))
    → users_of (values (insert k v d)) + users (found (lookup k d)) ≡ users_of (values d) + users v
users_of-insert k v [] = omega arith
users_of-insert k v ((j, rs) ∷ d) = elim (Bool-cases (str_eq j k)) [
  | inl same ↦ rw same (omega arith)
  | inr other ↦ rw other (omega (arith, users_of-insert k v d))
]

users_of-grouped :
    (rs : List Interaction) (d : Dict (List Interaction))
    → users_of (values (grouped rs d)) ≡ users_of (values d) + users rs
unfolding grouped
users_of-grouped [] d = omega arith
users_of-grouped (r ∷ rs) d =
    let v = found (lookup r.session_id d) ++ (r ∷ []) in
    omega (
      arith,
      users-append (found (lookup r.session_id d)) r,
      users_of-insert r.session_id v d,
      users_of-grouped rs (insert r.session_id v d),
    )

-- The pairs are no more than the user's messages among the logs, however the sessions are mixed: no
-- prompt is used for two answers.
pub format_training_pairs-le :
    (show : Value → String) (logs : List Interaction) (sys : Option String)
    → length (format_training_pairs show logs sys) ≤ users logs
unfolding format_training_pairs
format_training_pairs-le show logs sys =
    omega (arith, all_le show sys (values (grouped logs [])) [], users_of-grouped logs [])
