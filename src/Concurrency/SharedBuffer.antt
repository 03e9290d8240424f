-- ===== src/Concurrency/SharedBuffer.antt =====
-- mini_os_simulator/concurrency/shared_buffer.py: a bounded FIFO buffer of items of any type.
pub mod Fifo
use smart_device_io_t_operat.Prelude.{
  ℕ, ℤ, pos, pos_part, neg_part, ltb_ℤ, String, Option, none, some, List, [], ◌∷◌, ◌++◌, length,
  leb, ltb, if◌then◌else◌,
}

pub record SharedBuffer {ℓ} (T : Type ℓ) : Type ℓ where
  pub name : String
  pub capacity : ℕ
  pub items : List T

pub data BufferError : Type 0 where
  bad_capacity full empty : BufferError

pub data Result {ℓ} (A : Type ℓ) : Type ℓ where
  ok : A → Result A
  raise : BufferError → Result A

module _ {ℓ} {T : Type ℓ} where
  -- `SharedBuffer.__init__`
  unfoldable pub new_buffer : ℤ → String → Result (SharedBuffer T)
  new_buffer capacity name =
      if ltb_ℤ capacity (pos 1)
      then raise bad_capacity
      else ok (record { name = name; capacity = pos_part capacity; items = [] })

  unfoldable pub produce : T → SharedBuffer T → Result (SharedBuffer T)
  produce item b =
      if leb b.capacity (length b.items)
      then raise full
      else ok (record b { items = b.items ++ item ∷ [] })

  unfoldable pub consume : SharedBuffer T → Result (T × SharedBuffer T)
  consume b = elim b.items [ [] ↦ raise empty | item ∷ rest ↦ ok (item, record b { items = rest }) ]

  unfoldable pub peek : SharedBuffer T → Option T
  peek b = elim b.items [ [] ↦ none | item ∷ rest ↦ some item ]
