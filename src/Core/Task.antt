-- ===== src/Core/Task.antt =====
-- A call of user code (a hook or a handler) as ts/core/pipeline.ts meets it: it returns a value, it
-- throws, or it returns a promise. `S` is the mutable state that the code shares (the request with
-- its staged headers, and whatever else the program holds), `E` an exception.
use toki.Base.{◌≡◌, refl}

-- `await s k`: the call has returned a promise at the state `s`; when the promise is next resumed,
-- `k` runs from the state of that moment. A throw behind an `await` is a rejection.
pub data Task (S E A : Type 0) : Type 0 where
  ret : S → A → Task S E A
  throw : S → E → Task S E A
  await : S → (S → Task S E A) → Task S E A

module _ {S E : Type 0} where
  -- `p.then(f)` on the result of a call that may throw
  unfoldable pub then_do : {A B : Type 0} → Task S E A → (S → A → Task S E B) → Task S E B
  then_do (ret s a) f = f s a
  then_do (throw s e) f = throw s e
  then_do (await s k) f = await s (λ t. then_do (k t) f)

-- How a call ends: with a value or an exception.
pub data Settled (E A : Type 0) : Type 0 where
  fulfilled : A → Settled E A
  rejected : E → Settled E A

abbrev pub continue_with :
    {S E A B : Type 0} → S × Settled E A → (S → A → S × Settled E B) → S × Settled E B
continue_with (s, fulfilled a) f = f s a
continue_with (s, rejected e) f = (s, rejected e)

module _ {S E : Type 0} (other : S → S) where
  -- What a task comes to, when `other` is what the rest of the program does to the state between
  -- each suspension and its resumption.
  unfoldable pub settle : {A : Type 0} → Task S E A → S × Settled E A
  settle (ret s a) = (s, fulfilled a)
  settle (throw s e) = (s, rejected e)
  settle (await s k) = settle (k (other s))

  pub settle-then_do :
      {A B : Type 0} (m : Task S E A) (f : S → A → Task S E B)
      → settle (then_do m f) ≡ continue_with (settle m) (λ s a. settle (f s a))
  unfolding settle then_do
  settle-then_do (ret s a) f = refl
  settle-then_do (throw s e) f = refl
  settle-then_do (await s k) f = settle-then_do (k (other s)) f
