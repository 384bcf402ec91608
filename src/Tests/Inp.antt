-- ===== src/Tests/Inp.antt =====
-- The input states of src/inp on mouse buttons.
use braincells.Inp.KeySwitch.{update, update_key, value_mask}
use braincells.Inp.KeySwitch as Switch
use braincells.Inp.KeySwitch.Update.{verdict, test-update}
use braincells.Inp.RelativeState.{get, code_to_idx, first_idx, add_at, reset_at, load_at}
use braincells.Inp.RelativeState as Relative
use braincells.Inp.RelativeState.Conservation.{
  Step, handled, taken, all_taken, run, after, produced_all, consumed_all, conservation,
}
use braincells.Common.{ℕ, ◌+◌, ◌%◌, word32, ◌≡◌, refl, true, false, List, [], ◌∷◌, arith}
use braincells.Inp.KeyState.{
  Layout, IsLayout, handle, test, get_pos, is_key_valid, is_value_valid, blockcount, holds,
  bit_number, bitcount, value_bitcount,
}
use braincells.Inp.KeyIterator.{
  bits_from, tester, settle, key_iterator, next, visit, key_testers, tester_to_string, append_keys,
  pop_back, to_string,
}
use braincells.Inp.KeyIterator.Held.{held_from, key_testers-held_from}
use braincells.Inp.KeyState.Position.{IsEvent}
use braincells.Inp.KeyState.Laws.{test-handle, handle_invalid}

-- The buttons of inp::mouse_state: `left` to `extra`, pressed or released, in 16-bit blocks.
abbrev buttons : Layout
buttons = record { klow = 0x110; khigh = 0x114; vmin = 0; vmax = 1; block_element_size = 2 }

buttons-IsLayout : IsLayout buttons
buttons-IsLayout = omega arith

left_pressed : IsEvent buttons-IsLayout 0x110 1
left_pressed = omega arith

right_released : IsEvent buttons-IsLayout 0x111 0
right_released = omega arith

abbrev one_block : List ℕ
one_block = 2 ∷ []

get_pos-runs : get_pos buttons 0x111 0 ≡ (0, 2)
unfolding get_pos
get_pos-runs = refl

handle_runs : handle buttons one_block 0x111 0 ≡ (true, 6 ∷ [])
unfolding handle get_pos is_key_valid is_value_valid
handle_runs = refl

test-handle_example :
    ((handle buttons one_block 0x111 0).0 ≡ true)
    × (test buttons (handle buttons one_block 0x111 0).1 0x110 1 ≡ test buttons one_block 0x110 1)
unfolding blockcount
test-handle_example =
    test-handle buttons-IsLayout one_block 0x111 0 0x110 1 refl right_released left_pressed

handle_invalid_example : handle buttons one_block 0x115 0 ≡ (false, one_block)
unfolding is_key_valid is_value_valid
handle_invalid_example = handle_invalid buttons-IsLayout one_block 0x115 0 refl

visits_pressed : key_testers buttons one_block ≡ record { key = 0x110; bits = 2 } ∷ []
unfolding key_testers visit next key_iterator settle tester bits_from test holds get_pos
    is_key_valid bit_number blockcount bitcount value_bitcount
visits_pressed = refl

-- The button 272 with its bits 2.
text_of_pressed : to_string (λ k. k ∷ []) (λ n. n ∷ []) buttons one_block ≡ 0x110 ∷ b':' ∷ 2 ∷ []
unfolding to_string append_keys pop_back tester_to_string key_testers visit next key_iterator settle
    tester bits_from test holds get_pos is_key_valid bit_number blockcount bitcount value_bitcount
text_of_pressed = refl

key_testers-held_from_example : key_testers buttons one_block ≡ held_from buttons one_block 5 0x110
key_testers-held_from_example =
    key_testers-held_from buttons one_block buttons-IsLayout (omega arith)

-- The event thread moves x twice, once by -3, and the consumer takes in between.
abbrev moves : List Step
moves = handled 0 5 ∷ taken 0 ∷ handled 0 4294967293 ∷ handled 9 1 ∷ all_taken ∷ handled 1 2 ∷ []

run-moves : run (0 ∷ 1 ∷ []) (0 ∷ 0 ∷ []) moves ≡ 0 ∷ 2 ∷ []
unfolding run after Relative.handle Relative.take Relative.take_all code_to_idx first_idx add_at
    reset_at load_at
run-moves = refl

conservation_example :
    (consumed_all (0 ∷ 1 ∷ []) 0 (7 ∷ 0 ∷ []) moves
        + get (0 ∷ 1 ∷ []) (run (0 ∷ 1 ∷ []) (7 ∷ 0 ∷ []) moves) 0)
      % word32
    ≡ (produced_all (0 ∷ 1 ∷ []) 0 moves + get (0 ∷ 1 ∷ []) (7 ∷ 0 ∷ []) 0) % word32
unfolding code_to_idx first_idx
conservation_example = conservation (0 ∷ 1 ∷ []) 0 0 moves (7 ∷ 0 ∷ []) refl refl

-- Keys 66 and 67 are pressed, and then 66 is released.
switches :
    update 1 100 1 0 (0 ∷ 0 ∷ []) (
      record { key = 66; bits = 2 }
      ∷ record { key = 67; bits = 2 }
      ∷ record { key = 66; bits = 1 }
      ∷ [])
    ≡ 0 ∷ 4 ∷ []
unfolding update update_key Switch.get_pos value_mask
switches = refl

-- The left button is held as pressed: it goes on, and the others stay as they were.
test-update_example :
    Switch.test 0x110 0x114 1 0
      (update 0x110 0x114 1 0 (4 ∷ []) (key_testers buttons one_block))
      0x110
    ≡ verdict 0x110 0x114 1 0
        (test buttons one_block 0x110 1)
        (test buttons one_block 0x110 0)
        (Switch.test 0x110 0x114 1 0 (4 ∷ []) 0x110)
unfolding Switch.blocks_count Switch.bits_count
test-update_example =
    test-update buttons one_block (4 ∷ []) 1 0 0x110 buttons-IsLayout (omega arith) (omega arith)
      (omega arith) (omega arith) refl (omega arith)
