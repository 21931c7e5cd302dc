-- ===== src/Engine/Triple.antt =====
-- Conditions before and after a method of the engine that talks to a recording backend. They speak
-- of the kept progress and of the conversation, and one stands for every error.
use cs2_opt.Prelude.{
  refl, Bool, true, false, ◌≡◌, List, ◌∷◌, Result, ok, err, String, if◌then◌else◌,
}
use cs2_opt.Progress.{Progress}
use cs2_opt.Engine.Defs.{Call, World, Event, EngineError, RunReport}
use cs2_opt.Engine.Exec.{
  Exec, map_err, ◌>>=◌, ◌>>◌, continue, pure, raise, call, ask, event, check, set_progress,
}
use cs2_opt.Engine.Run.{tally, get_progress}
use cs2_opt.Engine.Log.{noted, quiet}

abbrev pub Condition : Type 0 → Type 0 → Type 1
Condition V T = Progress V → List T → Type 0

module _ {S V T A : Type 0} where
  abbrev pub Post :
      Condition V T → (A → Condition V T) → Result EngineError A × World (S × List T) V → Type 0
  Post E Q (ok a, w) = Q a w.progress w.outside.1
  Post E Q (err e, w) = E w.progress w.outside.1

  pub record Triple (E P : Condition V T) (m : Exec (S × List T) V A) (Q : A → Condition V T)
      : Type 0 where
    pub run : (w : World (S × List T) V) → P w.progress w.outside.1 → Post E Q (m w)

  -- What a method establishes whether it ends well or not.
  pub either_way :
      {E P : Condition V T} {m : Exec (S × List T) V A}
      → Triple E P m (λ _. E)
      → (w : World (S × List T) V) → P w.progress w.outside.1
      → E (m w).1.progress (m w).1.outside.1
  either_way {E} {P} {m} t w p = go (m w) (t.run w p)
    where
      go :
          (o : Result EngineError A × World (S × List T) V)
          → Post E (λ _. E) o
          → E o.1.progress o.1.outside.1
      go (ok a, w') q = q
      go (err e, w') q = q

  -- What a method that ends well establishes.
  pub on_success :
      {E P : Condition V T} {m : Exec (S × List T) V A} {Q : Condition V T}
      → Triple E P m (λ _. Q)
      → (w : World (S × List T) V) (a : A) → P w.progress w.outside.1
      → (m w).0 ≡ ok a
      → Q (m w).1.progress (m w).1.outside.1
  on_success {E} {P} {m} {Q} t w a p e = go (m w) e (t.run w p)
    where
      go :
          (o : Result EngineError A × World (S × List T) V)
          → o.0 ≡ ok a
          → Post E (λ _. Q) o
          → Q o.1.progress o.1.outside.1
      go (ok x, w') h q = q
      go (err x, w') h q = cc

  pub pure-Triple : {E P : Condition V T} (a : A) → Triple E P (pure a) (λ _. P)
  pure-Triple a = record { run = λ w p. p }

  pub give-Triple :
      {E P : Condition V T} {Q : A → Condition V T} (a : A)
      → ((q : Progress V) (log : List T) → P q log → Q a q log)
      → Triple E P (pure a) Q
  give-Triple a f = record { run = λ w p. f w.progress w.outside.1 p }

  pub relax-Triple :
      {E D P : Condition V T} {Q : A → Condition V T} {m : Exec (S × List T) V A}
      → ((q : Progress V) (log : List T) → E q log → D q log)
      → Triple E P m Q
      → Triple D P m Q
  relax-Triple {E} {D} {P} {Q} {m} f t = record { run = λ w p. go (m w) (t.run w p) }
    where
      go : (o : Result EngineError A × World (S × List T) V) → Post E Q o → Post D Q o
      go (ok a, w') q = q
      go (err e, w') q = f w'.progress w'.outside.1 q

  pub decide-Triple :
      {E P : Condition V T} {Q : A → Condition V T} (c : Bool) {yes no : Exec (S × List T) V A}
      → (c ≡ true → Triple E P yes Q)
      → Triple E P no Q
      → Triple E P (if c then yes else no) Q
  decide-Triple true y n = y refl
  decide-Triple false y n = n

  pub weaken-Triple :
      {E P Q : Condition V T} {U : A → Condition V T} {m : Exec (S × List T) V A}
      → ((q : Progress V) (log : List T) → Q q log → P q log)
      → Triple E P m U
      → Triple E Q m U
  weaken-Triple f t = record { run = λ w p. t.run w (f w.progress w.outside.1 p) }

  pub if-Triple :
      {E P : Condition V T} {Q : A → Condition V T} (c : Bool) {yes no : Exec (S × List T) V A}
      → Triple E P yes Q
      → Triple E P no Q
      → Triple E P (if c then yes else no) Q
  if-Triple true y n = y
  if-Triple false y n = n

  pub if_true-Triple :
      {E P : Condition V T} {Q : A → Condition V T} {c : Bool} {yes : Exec (S × List T) V A}
      (no : Exec (S × List T) V A)
      → c ≡ true
      → Triple E P yes Q
      → Triple E P (if c then yes else no) Q
  if_true-Triple other e t = rw e t

  pub if_false-Triple :
      {E P : Condition V T} {Q : A → Condition V T} {c : Bool} (yes : Exec (S × List T) V A)
      {no : Exec (S × List T) V A}
      → c ≡ false
      → Triple E P no Q
      → Triple E P (if c then yes else no) Q
  if_false-Triple other e t = rw e t

  pub raise-Triple :
      {E P : Condition V T} {Q : A → Condition V T} (e : EngineError)
      → ((q : Progress V) (log : List T) → P q log → E q log)
      → Triple E P (raise e) Q
  raise-Triple e f = record { run = λ w p. f w.progress w.outside.1 p }

  pub ask-Triple : {E P : Condition V T} (f : S → A × S) → Triple E P (ask (quiet f)) (λ _. P)
  ask-Triple f = record { run = λ w p. p }

  pub call-Triple :
      {E P : Condition V T} {Q : A → Condition V T} (f : Call S A) (entry : Result String A → T)
      (wrap : String → EngineError)
      → ((a : A) (q : Progress V) (log : List T) → P q log → Q a q (entry (ok a) ∷ log))
      → ((m : String) (q : Progress V) (log : List T) → P q log → E q (entry (err m) ∷ log))
      → Triple E P (call (noted f entry) wrap) Q
  call-Triple {E} {P} {Q} f entry wrap good bad = record {
    run = λ w p. answered w p (f w.outside.0);
  }
    where
      answered :
          (w : World (S × List T) V)
          → P w.progress w.outside.1
          → (o : Result String A × S)
          → Post E Q (map_err wrap o.0, record w { outside = (o.1, entry o.0 ∷ w.outside.1) })
      answered w p (ok a, s) = good a w.progress w.outside.1 p
      answered w p (err m, s) = bad m w.progress w.outside.1 p

module _ {S V T A B : Type 0} where
  pub bind-Triple :
      {E P : Condition V T} {Q : A → Condition V T} {U : B → Condition V T}
      {m : Exec (S × List T) V A} {f : A → Exec (S × List T) V B}
      → Triple E P m Q
      → ((a : A) → Triple E (Q a) (f a) U)
      → Triple E P (m >>= f) U
  bind-Triple {E} {P} {Q} {U} {m} {f} first next = record { run = λ w p. go (m w) (first.run w p) }
    where
      go :
          (o : Result EngineError A × World (S × List T) V)
          → Post E Q o
          → Post E U (continue o.0 f o.1)
      go (ok a, w') q = (next a).run w' q
      go (err e, w') q = q

module _ {S V T B : Type 0} where
  pub then-Triple :
      {E P Q : Condition V T} {U : B → Condition V T} {m : Exec (S × List T) V (Unit {0})}
      {k : Exec (S × List T) V B}
      → Triple E P m (λ _. Q)
      → Triple E Q k U
      → Triple E P (m >> k) U
  then-Triple first next = bind-Triple first (λ _. next)

module _ {S V T : Type 0} where
  pub event-Triple : {E P : Condition V T} (e : Event) → Triple {S = S} E P (event e) (λ _. P)
  event-Triple e = record { run = λ w p. p }

  pub tally-Triple :
      {E P : Condition V T} (f : RunReport → RunReport) → Triple {S = S} E P (tally f) (λ _. P)
  tally-Triple f = record { run = λ w p. p }

  pub get_progress-Triple :
      {E P : Condition V T} → Triple {S = S} E P get_progress (λ kept q log. P q log × (q ≡ kept))
  get_progress-Triple = record { run = λ w p. (p, refl) }

  pub check-Triple :
      {E P : Condition V T} (b : Bool) (e : EngineError)
      → ((q : Progress V) (log : List T) → P q log → E q log)
      → Triple {S = S} E P (check b e) (λ _ q log. P q log × (b ≡ true))
  check-Triple true e f = record { run = λ w p. (p, refl) }
  check-Triple false e f = record { run = λ w p. f w.progress w.outside.1 p }

  pub set_progress-Triple :
      {E P : Condition V T} {Q : Condition V T} (next : Progress V)
      → ((q : Progress V) (log : List T) → P q log → Q next log)
      → Triple {S = S} E P (set_progress next) (λ _. Q)
  set_progress-Triple next f = record { run = λ w p. f w.progress w.outside.1 p }

  -- An answer that needs no call.
  pub outright-Triple :
      {E P : Condition V T} (r : Result String (Unit {0})) (wrap : String → EngineError)
      → ((q : Progress V) (log : List T) → P q log → E q log)
      → Triple {S = S} E P (call (λ s. (r, s)) wrap) (λ _. P)
  outright-Triple (ok u) wrap f = record { run = λ w p. p }
  outright-Triple (err m) wrap f = record { run = λ w p. f w.progress w.outside.1 p }
