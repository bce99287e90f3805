-- ===== src/Tests/Wrapping.antt =====
-- The theorems on the wrappers and on who has control at concrete inputs.
use udi.Barrier.{
  Barrier, got, sentinel, threads_of, thread_of_id, block_other_threads, release_other_threads,
}
use udi.Barrier.Exclusive.{Only, IsExclusive, Keeps, IsSafe, After}
use udi.Barrier.Exclusive.Given.{block_other_threads-IsExclusive}
use udi.Barrier.Round.{running_others, take, block_other_threads-alone}
use udi.Cmd.{ok}
use udi.Fork.{minus_one, after_fork_event, fork}
use udi.Fork.Parent.{fork_event, fork-reported}
use udi.Handler.{Library, with_debuggee}
use udi.Files.{open_read, open_write}
use udi.Msg.Debuggee.{success, Debuggee, has_thread}
use udi.Msg.Files.{request_file_name, response_file_name}
use udi.Msg.Files.Deleted.{made}
use udi.Paths.Whole.{within, thread_dir_of}
use udi.Tests.Names.{filled-sized}
use udi.Tests.Startup.{requesting, empty, requesting-HoldsInit}
use udi.Threads.{new_thread}
use udi.Threads.Handshake.Answered.{init_answer}
use udi.Wrappers.Introduced.{create_event, handle_thread_create-introduces}
use udi.Msg.Events.Reported.{reported}
use udi.Msg.Thread.{find_thread}
use udi.Tests.Handlers.{library, no_signals, no_instruction, no_strerror}
use udi.Tests.Loops.{replies, arriving}
use udi.Barrier.Exclusive.Answered.{answers-Keeps}
use udi.Tests.Samples.{machine, cbor, cbor-serializes, debuggee, files, thread}
use udi.Wrappers.{pthread_create, handle_thread_create}
use udi.Wrappers.Stopped.{pthread_create-refused}
use udi.Prelude.{◌≡◌, refl, true, [], ◌∷◌, ◌++◌, ◌+◌, arith}

-- The first of the three threads has control.
abbrev holding : Barrier
holding = record arriving {
  shared = record arriving.shared {
    debuggee = record arriving.shared.debuggee {
      threads = take (thread 40) ∷ thread 50 ∷ thread 60 ∷ [];
    };
  };
}

arriving-IsSafe : IsSafe arriving
unfolding IsSafe IsExclusive Only Keeps find_thread
arriving-IsSafe = ((0, λ q ne. ground arith), answers-Keeps replies)

holding-Only : Only 40 (threads_of holding)
unfolding Only find_thread
holding-Only q ne = ground arith

block_other_threads-IsExclusive_example :
    After IsSafe (block_other_threads arriving) × After IsSafe (release_other_threads holding)
unfolding thread_of_id Keeps
block_other_threads-IsExclusive_example =
    block_other_threads-IsExclusive arriving holding (take (thread 40)) arriving-IsSafe refl
      holding-Only (answers-Keeps replies)

abbrev creating : Library
creating = record library { barrier = arriving }

pthread_create-refused_example :
    (l' : Library) × (pthread_create cbor no_instruction no_strerror no_signals 11 creating
      ≡ ok 11 l')
    × (l'.barrier.signalled ≡ [] ++ running_others 40 (threads_of arriving))
    × (l'.barrier.released ≡ [])
    × (l'.barrier.shared.sync_var ≡ 1)
unfolding thread_of_id find_thread running_others
pthread_create-refused_example =
    pthread_create-refused cbor no_instruction no_strerror no_signals 11 creating (thread 40)
      replies [] (ground arith) refl refl refl refl refl refl refl refl (λ n. refl) refl refl

-- The real `fork` failed.
fork-reported_example :
    fork cbor no_instruction no_strerror minus_one library
    ≡ after_fork_event cbor no_instruction no_strerror minus_one success (
        with_debuggee
          (reported
            (debuggee machine [])
            (fork_event cbor no_instruction no_strerror cbor-serializes 41 0xffffffff))
          library)
fork-reported_example =
    fork-reported cbor no_instruction no_strerror cbor-serializes minus_one library library.barrier
      (λ e. ground (arith, e)) (block_other_threads-alone library.barrier refl) refl

-- A second thread, whose creator lets it go on at once.
abbrev entering : Debuggee
entering = record (debuggee machine []) {
  threads = thread 50 ∷ [];
  num_threads = 1;
  multithread_capable = true;
  files = record files { requests = requesting ∷ [] };
  addresses = 70 ∷ [];
}

abbrev introducing : Library
introducing = record library {
  barrier = record library.barrier {
    shared = record { debuggee = entering; sync_var = 1 };
    reads = got sentinel (λ s. s) ∷ [];
  };
}

handle_thread_create-introduces_example :
    (d' : Debuggee) × (handle_thread_create cbor no_instruction no_strerror no_signals 51
        introducing
      ≡ ok success (record introducing {
        barrier = record introducing.barrier {
          shared = record { debuggee = d'; sync_var = 1 };
          writes = [];
          reads = [];
          triggers = 0 + 1;
        };
      }))
    × (d'.threads
        ≡ entering.threads
          ++ (record (new_thread 70 41) {
            request_pipe = empty;
            response_output = init_answer cbor true 41;
          }
              ∷ []))
    × (d'.num_threads ≡ 1 + 1)
    × (d'.files.done
        ≡ []
          ++ (made (thread_dir_of entering.files.basedir_name 41)
              ++ (open_read
                    (within (thread_dir_of entering.files.basedir_name 41) request_file_name)
                  ∷ open_write
                      (within (thread_dir_of entering.files.basedir_name 41) response_file_name)
                  ∷ [])))
    × (d'.events ≡ [] ++ create_event cbor 51 41)
    × (d'.output ≡ [])
unfolding has_thread
handle_thread_create-introduces_example =
    handle_thread_create-introduces cbor no_instruction no_strerror no_signals cbor-serializes
      introducing entering 51 70 [] requesting empty [] (λ s. s) [] refl requesting-HoldsInit
      (record { granted = λ n. refl; sized = filled-sized; clean = refl; short = omega arith }) refl
      refl (omega arith) refl (ground arith) refl refl refl refl refl
