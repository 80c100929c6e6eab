-- ===== src/Any.antt =====
-- Any of Sever_final/Sever.hpp: a pointer to a holder on the heap. A value of any C++ type is a `D`,
-- and `type_of` gives the number of its type, as `typeid` does. The Any objects of a program have
-- numbers; one that is not there, or that is empty, has a null pointer. `none` is a holder that is
-- read or deleted behind its `delete`.
pub mod Owner
pub mod Runs
pub mod Values
mod Tests
use high_concurrency_server.Common.{
  ℕ, ◌+◌, Option, none, some, List, [], ◌∷◌, ◌==◌, if◌then◌else◌, ◌>>=◌,
}

-- The holders by their addresses; `next` is the address of the next one.
pub record Heap (D : Type 0) : Type 0 where
  pub cell : ℕ → Option D
  pub next : ℕ

pub record Anys (D : Type 0) : Type 0 where
  pub heap : Heap D
  pub content : ℕ → Option ℕ

abbrev pub update : {A : Type 0} → (ℕ → A) → ℕ → A → ℕ → A
update f x a y = if x == y then a else f y

module _ {D : Type 0} where
  -- The heap before the first `new`, and no Any object.
  unfoldable pub init : Anys D
  init = record { heap = record { cell = λ p. none; next = 0 }; content = λ x. none }

  -- `new PlaceHolder<T>(val)`, at `next`.
  unfoldable pub alloc : Heap D → D → Heap D
  alloc h d = record { cell = update h.cell h.next (some d); next = h.next + 1 }

  -- `delete _content`
  unfoldable pub delete_content : Heap D → Option ℕ → Option (Heap D)
  delete_content h none = some h
  delete_content h (some p) = do d ← h.cell p; some (record h { cell = update h.cell p none })

  -- `other._content != nullptr ? other._content->clone() : nullptr`
  unfoldable pub clone_content : Heap D → Option ℕ → Option (Option ℕ × Heap D)
  unfolding alloc
  clone_content h none = some (none, h)
  clone_content h (some p) = do d ← h.cell p; some (some h.next, alloc h d)

  -- `Any(…).swap(*this)`: `x` gets the content `c`, and the temporary deletes the old one.
  abbrev pub take_over : Anys D → ℕ → Option ℕ × Heap D → Option (Anys D)
  take_over s x (c, h) = do
    h' ← delete_content h (s.content x)
    some (record { heap = h'; content = update s.content x c })

  -- `x = val`
  unfoldable pub assign_value : Anys D → ℕ → D → Option (Anys D)
  unfolding alloc delete_content
  assign_value s x d = take_over s x (some s.heap.next, alloc s.heap d)

  -- `x = y`, with the copy constructor.
  unfoldable pub assign : Anys D → ℕ → ℕ → Option (Anys D)
  unfolding clone_content delete_content
  assign s x y = clone_content s.heap (s.content y) >>= take_over s x

  -- `~Any()`
  unfoldable pub destroy : Anys D → ℕ → Option (Anys D)
  unfolding delete_content
  destroy s x = take_over s x (none, s.heap)

  unfoldable pub swap : Anys D → ℕ → ℕ → Anys D
  swap s x y = record s { content = update (update s.content x (s.content y)) y (s.content x) }

  module _ (type_of : D → ℕ) where
    -- `Get<T>()` of a holder.
    abbrev pub typed : ℕ → ℕ → D → Option ℕ
    typed t p d = if type_of d == t then some p else none

    -- `x.Get<T>()`, where `t` is the number of T: the address of the value.
    unfoldable pub get : Anys D → ℕ → ℕ → Option ℕ
    get s x t = do p ← s.content x; d ← s.heap.cell p; typed t p d

    -- `if (T *p = x.Get<T>()) *p = val;`
    unfoldable pub put : Anys D → ℕ → D → Anys D
    unfolding get
    put s x d = elim (get s x (type_of d)) [
      | none ↦ s
      | some p ↦ record s { heap = record s.heap { cell = update s.heap.cell p (some d) } }
    ]
