-- ===== src/Coordinator/Action.antt =====
-- Methods that change an object and may raise: what was assigned before a raise stays.
use delonghi_ha.Prelude.{◌≡◌, refl, ap, ◌∙◌}
use delonghi_ha.Prelude.Raise.{Exception, Result, ok, raise}

abbrev pub Action : Type 0 → Type 0 → Type 0
Action S A = S → Result A × S

module _ {S A : Type 0} where
  unfoldable pub lift : Result A → Action S A
  lift given s = (given, s)

module _ {S : Type 0} where
  unfoldable pub modify : (S → S) → Action S (Unit {0})
  modify f s = (ok tt, f s)

module _ {S A B : Type 0} where
  abbrev pub go_on : (A → Action S B) → Result A × S → Result B × S
  go_on next (raise e, t) = (raise e, t)
  go_on next (ok a, t) = next a t

  infixl 5 ◌>>=◌ ◌>>◌
  unfoldable pub ◌>>=◌ : Action S A → (A → Action S B) → Action S B
  ◌>>=◌ first next s = go_on next (first s)

  abbrev pub ◌>>◌ : Action S A → Action S B → Action S B
  first >> second = first >>= λ _. second

-- A part of the state that an action leaves as it is.
pub record Leaves {S V A : Type 0} (part : S → V) (m : Action S A) : Type 0 where
  pub at : (s : S) → part (m s).1 ≡ part s

module _ {S V : Type 0} (part : S → V) where
  pub lift-Leaves : {A : Type 0} (given : Result A) → Leaves part (lift given)
  unfolding lift
  lift-Leaves given = record { at = λ s. refl }

  pub modify-Leaves : (f : S → S) → ((s : S) → part (f s) ≡ part s) → Leaves part (modify f)
  unfolding modify
  modify-Leaves f h = record { at = h }

module _ {S V A B : Type 0} (part : S → V) (next : A → Action S B) where
  go_on-same :
      ((a : A) → Leaves part (next a))
      → (s : S) (run : Result A × S) → part run.1 ≡ part s
      → part (go_on next run).1 ≡ part s
  go_on-same h s (raise e, t) same = same
  go_on-same h s (ok a, t) same = (h a).at t ∙ same

  pub bind-Leaves :
      (m : Action S A) → Leaves part m → ((a : A) → Leaves part (next a)) → Leaves part (m >>= next)
  unfolding ◌>>=◌
  bind-Leaves m first h = record { at = λ s. go_on-same h s (m s) (first.at s) }

-- What holds after an action that does not raise, if something holds before it.
abbrev pub Holds : {S A : Type 0} → (S → Type 0) → Result A × S → Type 0
Holds Post (raise e, t) = Unit {0}
Holds Post (ok a, t) = Post t

pub record Ensures {S A : Type 0} (Pre : S → Type 0) (m : Action S A) (Post : S → Type 0)
    : Type 0 where
  pub at : (s : S) → Pre s → Holds Post (m s)

module _ {S : Type 0} {Pre : S → Type 0} where
  pub lift-Ensures : {A : Type 0} (given : Result A) → Ensures Pre (lift given) Pre
  unfolding lift
  lift-Ensures (ok a) = record { at = λ s h. h }
  lift-Ensures (raise e) = record { at = λ s h. tt }

  pub modify-Ensures :
      {Post : S → Type 0} (f : S → S) → ((s : S) → Pre s → Post (f s)) → Ensures Pre (modify f) Post
  unfolding modify
  modify-Ensures f h = record { at = h }

  pub anything-Ensures : {A : Type 0} (m : Action S A) → Ensures Pre m (λ _. Unit {0})
  anything-Ensures m = record { at = λ s h. trivial (m s) }
    where
      trivial : {A : Type 0} (run : Result A × S) → Holds (λ _. Unit {0}) run
      trivial (ok a, t) = tt
      trivial (raise e, t) = tt

module _ {S A B : Type 0} {Pre Mid Post : S → Type 0} (next : A → Action S B) where
  pub bind-Ensures :
      (m : Action S A)
      → Ensures Pre m Mid
      → ((a : A) → Ensures Mid (next a) Post)
      → Ensures Pre (m >>= next) Post
  unfolding ◌>>=◌
  bind-Ensures m first h = record { at = λ s pre. then_holds (m s) (first.at s pre) }
    where
      then_holds : (run : Result A × S) → Holds Mid run → Holds Post (go_on next run)
      then_holds (ok a, t) mid = (h a).at t mid
      then_holds (raise e, t) mid = tt

module _ {S A B : Type 0} (next : A → Action S B) (m : Action S A) (s : S) where
  pub bind-ok : {a : A} {t : S} → m s ≡ (ok a, t) → (m >>= next) s ≡ next a t
  unfolding ◌>>=◌
  bind-ok e = ap (go_on next) e

  pub bind-raise : {e : Exception} {t : S} → m s ≡ (raise e, t) → (m >>= next) s ≡ (raise e, t)
  unfolding ◌>>=◌
  bind-raise e = ap (go_on next) e
