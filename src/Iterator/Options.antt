-- ===== src/Iterator/Options.antt =====
-- newPeekIterator and the peek options of iterator.go.
use mathlib.Core.Option.{get_or}
use azure_service_bus_go.Prelude.{
  ℕ, Bool, true, false, Option, none, some, List, [], ◌∷◌, String, ◌||◌, map, ◌≡◌, refl,
  if◌then◌else◌,
}
use azure_service_bus_go.Prelude.Int.{ℤ, pos, negsuc, suc_int64}
use azure_service_bus_go.Errors.{Error, plain, Exec, ok, err}

-- A buffered channel: its capacity, and what stands in it, first in first out.
pub record Channel (P : Type 0) : Type 0 where
  pub capacity : ℕ
  pub queue : List P

-- The entity is kept by its name. The amqp connection is only passed on. A nil channel is `none`.
pub record PeekIterator (P : Type 0) : Type 0 where
  pub entity : String
  pub buffer : Option (Channel P)
  pub last_sequence_number : ℤ

abbrev pub PeekOption : Type 0 → Type 0
PeekOption P = PeekIterator P → PeekIterator P × Option Error

abbrev pub default_peek_page_size : ℤ
default_peek_page_size = pos 10

abbrev has_buffer : {P : Type 0} → PeekIterator P → Bool
has_buffer pi = elim pi.buffer [ none ↦ false | some _ ↦ true ]

module _ {P : Type 0} where
  unfoldable pub peek_with_page_size : ℤ → PeekOption P
  peek_with_page_size (negsuc n) pi = (pi, some (plain "page size must not be less than zero"))
  peek_with_page_size (pos n) pi =
      if has_buffer pi
      then (pi, some (plain "cannot modify an existing peekIterator's buffer"))
      else (record pi { buffer = some (record { capacity = n; queue = [] }) }, none)

  unfoldable pub peek_from_sequence_number : ℤ → PeekOption P
  peek_from_sequence_number seq pi = (record pi { last_sequence_number = suc_int64 seq }, none)

  -- The loop over the options, with `foundPageSize`. What an option returns is dropped.
  apply_options : List (PeekOption P) → PeekIterator P → Bool → PeekIterator P × Bool
  apply_options [] pi found = (pi, found)
  apply_options (option ∷ options) pi found =
      let pi' = (option pi).0 in apply_options options pi' (has_buffer pi' || found)

  finish : PeekIterator P × Bool → Exec (PeekIterator P)
  unfolding peek_with_page_size
  finish (pi, true) = ok pi
  finish (pi, false) =
      let (pi', e) = peek_with_page_size default_peek_page_size pi in
      elim e [ none ↦ ok pi' | some x ↦ err x ]

  unfoldable pub new_peek_iterator : String → List (PeekOption P) → Exec (PeekIterator P)
  unfolding apply_options finish
  new_peek_iterator entity options = finish (
      apply_options options
        (record { entity = entity; buffer = none; last_sequence_number = pos 0 }) false)

-- The options that the package offers, with their arguments.
pub data Setting : Type 0 where
  page_size : ℤ → Setting
  from_sequence : ℤ → Setting

module _ {P : Type 0} where
  abbrev pub option_of : Setting → PeekOption P
  option_of (page_size n) = peek_with_page_size n
  option_of (from_sequence seq) = peek_from_sequence_number seq

-- The first page size that is not negative.
abbrev pub chosen_page_size : List Setting → Option ℕ
chosen_page_size [] = none
chosen_page_size (page_size (pos n) ∷ l) = some n
chosen_page_size (page_size (negsuc n) ∷ l) = chosen_page_size l
chosen_page_size (from_sequence seq ∷ l) = chosen_page_size l

-- The number after the last one that is asked for, or `start`.
abbrev pub chosen_start : ℤ → List Setting → ℤ
chosen_start start [] = start
chosen_start start (page_size n ∷ l) = chosen_start start l
chosen_start start (from_sequence seq ∷ l) = chosen_start (suc_int64 seq) l

module _ {P : Type 0} where
  apply_options_sized :
      (l : List Setting) (entity : String) (c : Channel P) (start : ℤ)
      → apply_options
          (map option_of l)
          (record { entity = entity; buffer = some c; last_sequence_number = start })
          true
        ≡ (
          record { entity = entity; buffer = some c; last_sequence_number = chosen_start start l },
          true,
        )
  unfolding apply_options peek_with_page_size peek_from_sequence_number
  apply_options_sized [] entity c start = refl
  apply_options_sized (page_size (pos n) ∷ l) entity c start = apply_options_sized l entity c start
  apply_options_sized (page_size (negsuc n) ∷ l) entity c start =
      apply_options_sized l entity c start
  apply_options_sized (from_sequence seq ∷ l) entity c start = apply_options_sized l entity c _

  finish_options :
      (l : List Setting) (entity : String) (start : ℤ)
      → finish {P = P} (
          apply_options
            (map option_of l)
            (record { entity = entity; buffer = none; last_sequence_number = start })
            false)
        ≡ ok (record {
          entity = entity;
          buffer = some (record { capacity = get_or (chosen_page_size l) 10; queue = [] });
          last_sequence_number = chosen_start start l;
        })
  unfolding apply_options peek_with_page_size peek_from_sequence_number finish
  finish_options [] entity start = refl
  finish_options (page_size (pos n) ∷ l) entity start =
      rw (apply_options_sized l entity (record { capacity = n; queue = [] }) start)
  finish_options (page_size (negsuc n) ∷ l) entity start = finish_options l entity start
  finish_options (from_sequence seq ∷ l) entity start = finish_options l entity _

  -- An iterator that is made from the package's own options is never refused, whatever the options
  -- are. Its buffer is empty and holds as many messages as the first page size that is not
  -- negative says, or 10 if there is none, and its start is that of the last start option, or 0.
  pub new_peek_iterator-eq-ok :
      (entity : String) (l : List Setting)
      → new_peek_iterator {P = P} entity (map option_of l)
        ≡ ok (record {
          entity = entity;
          buffer = some (record { capacity = get_or (chosen_page_size l) 10; queue = [] });
          last_sequence_number = chosen_start (pos 0) l;
        })
  unfolding new_peek_iterator
  new_peek_iterator-eq-ok entity l = finish_options l entity (pos 0)
