-- ===== src/Node/Monad.antt =====
-- State passing over a node, and the elementary exchanges with the surroundings. Each exchange
-- asks the environment and puts the answer on the trace.
use pg_guard.Prelude.{ℕ, ◌∷◌}
use pg_guard.Node.{Node, Env, Trace, Event, slept}

abbrev pub M {ℓ} : Type ℓ → Type ℓ
M A = Node → A × Node

infixl 5 ◌>>=◌ ◌>>◌
abbrev pub ◌>>=◌ {ℓ κ} : {A : Type ℓ} {B : Type κ} → M A → (A → M B) → M B
◌>>=◌ m f s = let (a, s') = m s in f a s'

abbrev pub ◌>>◌ {κ} : {B : Type κ} → M (Unit {0}) → M B → M B
◌>>◌ m k s = let (_, s') = m s in k s'

abbrev pub pure {ℓ} : {A : Type ℓ} → A → M A
pure a s = (a, s)

abbrev pub get : M Node
get s = (s, s)

abbrev pub modify : (Node → Node) → M (Unit {0})
modify f s = (tt, f s)

abbrev pub log : Event → Node → Node
log e s = record s { trace = e ∷ s.trace }

abbrev pub emit : Event → M (Unit {0})
emit e s = (tt, log e s)

-- Put a question to the surroundings and record its answer.
abbrev pub ask {ℓ} : {A : Type ℓ} → (Trace → A) → (A → Event) → M A
ask q e s = let a = q s.trace in (a, log (e a) s)

abbrev pub time_now : Env → M ℕ
time_now env s = (env.now s.trace, s)

abbrev pub sleep : ℕ → M (Unit {0})
sleep d = emit (slept d)
