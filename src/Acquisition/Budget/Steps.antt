-- ===== src/Acquisition/Budget/Steps.antt =====
-- Histories of one `Budget` of src/acquisition.rs: the calls of its methods in any order, with any
-- arguments, readers and times.
use docker_lens.Prelude.{ℕ, List, [], ◌∷◌}
use docker_lens.Acquisition.Budget.{
  Budget, PendingRequest, Reader, record_request, record_selection, record_expansion, read_response,
}

pub data Call : Type 0 where
  request : ℕ → PendingRequest → Call
  selection expansion : ℕ → ℕ → Call
  response : ℕ → ℕ → ℕ → Reader → Call

-- the budget that a call leaves, whatever it returns
unfoldable pub step : Budget → Call → Budget
step b (request elapsed p) = (record_request elapsed p b).1
step b (selection elapsed count) = (record_selection elapsed count b).1
step b (expansion elapsed count) = (record_expansion elapsed count b).1
step b (response before after status reader) = (read_response before after status reader b).1

unfoldable pub run : Budget → List Call → Budget
run b [] = b
run b (c ∷ calls) = run (step b c) calls
