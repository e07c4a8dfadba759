-- ===== src/Tests/Values.antt =====
-- Values, results and blocks at concrete inputs.
use leveldown.Base.{refl, true, false, some, [], ◌∷◌, pos, inr, map, ◌≡◌, ◌^◌, ◌+◌, ◌&&◌}
use leveldown.Value.{JsValue, V8, undefined, string, buffer, object, end, field, boolean}
use leveldown.Value.Double.{to_double}
use leveldown.Iterator.{Row}
use leveldown.Iterator.Range.{Plain}
use leveldown.Iterator.New.{new_options, new_options-Plain}
use leveldown.Value.Memory.{
  Heap, dispose_two, dispose_two_lem, left, leaks, string_or_buffer_to_slice,
}
use leveldown.Iterator.Result.{popped, result_array, popped-result_array, to_value}
use leveldown.Iterator.Held.{all_free, outcome, ◌>>=◌}
use leveldown.Iterator.Blocks.{Given, construct, destroy, use_all, finish, seeks, reads}
use leveldown.Iterator.Freed.{destroy-construct, was_used}

popped-result_array_example :
    popped (result_array true false ((1 ∷ [], 2 ∷ []) ∷ (3 ∷ [], []) ∷ []))
    ≡ map
        (λ (row : Row). (to_value true row.0, to_value false row.1))
        ((1 ∷ [], 2 ∷ []) ∷ (3 ∷ [], []) ∷ [])
popped-result_array_example = popped-result_array true false ((1 ∷ [], 2 ∷ []) ∷ (3 ∷ [], []) ∷ [])

abbrev all_given : Given
all_given = record {
  reverse = true;
  start = true;
  end = true;
  lt = true;
  lte = true;
  gt = true;
  gte = true;
}

abbrev pub plain_v8 : V8
plain_v8 = record {
  to_utf8 = λ v. elim v [ string s ↦ s | _ ↦ [] ];
  boolean_value = λ v. elim v [ boolean b ↦ b | _ ↦ false ];
  uint32_value = λ v. 0;
  integer_value = λ v. pos 0;
}

-- `{ reverse: true, lt: 'c' }`
abbrev below_c : JsValue
below_c = object (field "reverse" (boolean true) (field "lt" (string (99 ∷ [])) end))

new_options-Plain_example : Plain (new_options plain_v8 below_c)
unfolding new_options leveldown.Value.boolean_option_value leveldown.Value.is_object
    leveldown.Value.get leveldown.Iterator.New.bound_option
new_options-Plain_example = new_options-Plain plain_v8 below_c (inr refl)

abbrev pub no_blocks : Heap
no_blocks = record { live = []; next = 0 }

destroy-construct_example :
    outcome (
      construct all_given
      >>= use_all (reads ∷ seeks ∷ seeks ∷ [])
      >>= finish true
      >>= destroy all_given)
    ≡ some (record all_free {
      snapshot = false;
      cursor = was_used (reads ∷ seeks ∷ seeks ∷ []) && false;
    })
destroy-construct_example = destroy-construct all_given (reads ∷ seeks ∷ seeks ∷ []) true

dispose_two_lem_example :
    (h' : Heap) × (dispose_two plain_v8 (string (97 ∷ [])) (string []) no_blocks ≡ some h')
    × (h'.live
        ≡ left
            (leaks plain_v8 (string []))
            (string_or_buffer_to_slice plain_v8 (string (97 ∷ [])) no_blocks).1.next
            (left (leaks plain_v8 (string (97 ∷ []))) no_blocks.next no_blocks.live))
dispose_two_lem_example = dispose_two_lem plain_v8 (string (97 ∷ [])) (string []) no_blocks

-- Halfway between two doubles, the even one; just above, the next one.
to_double_halfway : to_double (2 ^ 63 + 1024) ≡ 2 ^ 63
unfolding to_double leveldown.Value.Double.unit_of leveldown.Value.Double.round_to
to_double_halfway = refl

to_double_above : to_double (2 ^ 63 + 1025) ≡ 2 ^ 63 + 2048
unfolding to_double leveldown.Value.Double.unit_of leveldown.Value.Double.round_to
to_double_above = refl
