-- ===== src/Tests/Linked.antt =====
-- The theorem on the list of threads at a concrete input.
use udi.Barrier.{thread_of_id}
use udi.Cmd.{ok}
use udi.Msg.Debuggee.{Debuggee, destroy_thread, has_thread}
use udi.Tests.Samples.{machine, debuggee, thread}
use udi.Threads.{new_thread, create_thread}
use udi.Threads.Linked.{destroy_thread-create_thread}
use udi.Prelude.{◌+◌, ◌≡◌, refl, true, some, [], ◌∷◌, arith}

abbrev two_threads : Debuggee
two_threads = record (debuggee machine []) {
  threads = thread 40 ∷ thread 50 ∷ [];
  num_threads = 2;
  multithread_capable = true;
  addresses = 70 ∷ [];
}

destroy_thread-create_thread_example :
    (s' : Debuggee) × (create_thread 71 two_threads ≡ ok (some (new_thread 70 71)) s')
    × (thread_of_id 71 s'.threads ≡ some (new_thread 70 71))
    × (s'.num_threads ≡ 2 + 1)
    × (destroy_thread 70 s' ≡ ok tt (record two_threads { addresses = [] }))
unfolding has_thread thread_of_id
destroy_thread-create_thread_example =
    destroy_thread-create_thread two_threads 70 71 [] refl (ground arith) refl refl (ground arith)
      refl
