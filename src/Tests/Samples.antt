-- ===== src/Tests/Samples.antt =====
-- Sample states: a debuggee whose memory is mapped from 64 to 4096, and a decoder for the part of
-- CBOR that the sample requests use.
use udi.Breakpoint.{blank, breakpoint_hash}
use udi.Breakpoint.Chain.{Cells, Holds, nil, cons, Holds-update}
use udi.Breakpoint.Install.{IsCalm}
use udi.Files.{Files}
use udi.Machine.{Ptr, Breakpoint, Machine, maperr, update}
use udi.Machine.Access.{IsOpen}
use udi.Msg.{
  Cbor, AsksForMore, Decoded, error, needs, finished, uint8, uint16, map_start, string, Item,
  uint16_item,
}
use udi.Msg.Debuggee.{running, Thread, Debuggee}
use udi.Prelude.{
  ℕ, ◌+◌, ◌*◌, ◌/◌, ◌%◌, ◌<◌, ◌≡◌, ◌≢◌, refl, true, false, ◌&&◌, none, some, List, [], ◌∷◌, arith,
  ltb, leb, ◌==◌, if◌then◌else◌, length, codes, replicate,
}

abbrev pub machine : Machine
machine = record {
  mem = λ a. if leb 64 a && ltb a 4096 then some (a % 256) else none;
  readable = λ p. true;
  writable = λ p. true;
  mem_access_addr = 0;
  mem_access_size = 0;
  aborting_mem_access = false;
  performing_mem_access = false;
  failed_si_code = maperr;
  pre_hooks = [];
  post_hooks = [];
  mprotects = [];
  fault_rounds = 2;
  nodes = λ p. none;
  breakpoints = λ h. 0;
  allocated = 0;
  mallocs = 500 ∷ 600 ∷ [];
  errmsg = record { format = ""; args = [] };
}

pub machine-IsOpen : IsOpen machine
machine-IsOpen = record {
  readable = λ p. refl;
  writable = λ p. refl;
  rounds = omega arith;
  idle = refl;
  pre = refl;
  post = refl;
}

abbrev pub no_cells : ℕ → Cells
no_cells h = []

pub machine-Holds : Holds machine no_cells
machine-Holds = record {
  chains = λ h. nil refl;
  homes = λ h a i. ground arith;
  bounded = λ h. omega arith;
}

-- The machine with one breakpoint, at 70.
abbrev pub with_breakpoint : Machine
with_breakpoint = record machine {
  nodes = update machine.nodes 500 (some (blank 70));
  breakpoints = update machine.breakpoints 70 500;
  allocated = 1;
  mallocs = 600 ∷ [];
}

pub with_breakpoint-IsCalm : IsCalm with_breakpoint
with_breakpoint-IsCalm = record {
  readable = λ p. refl;
  writable = λ p. refl;
  rounds = omega arith;
  idle = refl;
  pre = refl;
  post = refl;
}

abbrev pub one_cell : ℕ → Cells
one_cell = update no_cells 70 ((500, 70) ∷ [])

pub with_breakpoint-Holds : Holds with_breakpoint one_cell
unfolding breakpoint_hash
with_breakpoint-Holds =
    Holds-update machine-Holds with_breakpoint 70 ((500, 70) ∷ [])
      (cons {b = blank 70} (ground arith) refl refl refl refl refl (nil refl)) (λ k n. ground arith)
      (λ k n q i. ground arith) (λ a i. ground arith) (omega arith) (omega arith)

abbrev decode : List ℕ → Decoded
decode [] = needs 1
decode (c ∷ []) =
    if c == 0xa1
    then finished (map_start 1)
    else if ltb c 24
    then finished (uint8 c)
    else if c == 0x19
    then needs 3
    else if c == 0x64
    then needs 5
    else error
decode (c ∷ h ∷ []) = error
decode (c ∷ h ∷ l ∷ []) = if c == 0x19 then finished (uint16 (h * 256 + l)) else error
decode (c ∷ h ∷ l ∷ d ∷ []) = error
decode (c ∷ h ∷ l ∷ d ∷ e ∷ []) =
    if c == 0x64 then finished (string (h ∷ l ∷ d ∷ e ∷ [])) else error
decode (c ∷ h ∷ l ∷ d ∷ e ∷ f ∷ rest) = error

abbrev serialize : Item → List ℕ
serialize (uint16_item n) = 0x19 ∷ n / 256 % 256 ∷ n % 256 ∷ []
serialize _ = 0xf6 ∷ []

abbrev pub cbor : Cbor
cbor = record {
  cbor_stream_decode = decode;
  cbor_serialize = serialize;
  can_allocate = λ n. ltb n 1000;
}

pub cbor-serializes : (item : Item) → cbor.cbor_serialize item ≢ []
cbor-serializes (uint16_item n) = ground arith
cbor-serializes _ = ground arith

decode-more : (buffer : List ℕ) (n : ℕ) → decode buffer ≡ needs n → length buffer < n
decode-more [] n e = ground arith
decode-more (c ∷ []) n e = ground arith
decode-more (c ∷ h ∷ []) n e = ground arith
decode-more (c ∷ h ∷ l ∷ []) n e = ground arith
decode-more (c ∷ h ∷ l ∷ d ∷ []) n e = ground arith
decode-more (c ∷ h ∷ l ∷ d ∷ i ∷ []) n e = ground arith
decode-more (c ∷ h ∷ l ∷ d ∷ i ∷ f ∷ rest) n e = ground arith

pub cbor-AsksForMore : AsksForMore cbor
cbor-AsksForMore = record { more = decode-more }

abbrev pub files : Files
files = record {
  basedir_name = codes "/tmp/udi/41";
  requestfile_name = codes "/tmp/udi/41/request";
  responsefile_name = codes "/tmp/udi/41/response";
  eventsfile_name = codes "/tmp/udi/41/events";
  outcomes = [];
  done = [];
  requests = [];
  strerror = λ e. [];
  can_allocate = λ n. true;
  garbage = λ n. replicate n 7;
}

abbrev pub debuggee : Machine → List ℕ → Debuggee
debuggee m input = record {
  machine = m;
  pipe = record { input = input; input_error = 0 };
  output = [];
  events = [];
  write_errors = [];
  pipe_write_failure = false;
  continue_bp = 0;
  last_bp_address = 0;
  exit_bp = 0;
  user_thread_id = 41;
  threads = [];
  num_threads = 0;
  multithread_capable = false;
  closes = [];
  pipes = [];
  addresses = [];
  files = files;
  ctx = none;
  exiting = false;
  pass_signal = 0;
  killed = [];
  filesystem_removed = false;
}

-- A thread whose structure is at `self`.
abbrev pub thread : Ptr → Thread
thread self = record {
  self = self;
  id = self + 1;
  ts = running;
  dead = false;
  single_step = false;
  single_step_bp = 0;
  context_valid = true;
  context = λ n. 0;
  signal = 0;
  control_thread = false;
  suspend_pending = false;
  stack_event_pending = false;
  request_pipe = record { input = []; input_error = 0 };
  response_output = [];
}

-- The map of one pair, from the text `addr` to `address`.
abbrev pub addr_request : ℕ → List ℕ
addr_request address = 0xa1 ∷ 0x64 ∷ 0x61 ∷ 0x64 ∷ 0x64 ∷ 0x72 ∷ 0x19 ∷ 0 ∷ address ∷ []

-- The structure at 500 with one behind it.
abbrev pub linked : Breakpoint
linked = record (blank 70) { next_breakpoint = 600 }

-- The machine with two breakpoints in one bucket, at 70 and at 326.
abbrev pub with_two : Machine
with_two = record machine {
  nodes = update (update machine.nodes 600 (some (blank 326))) 500 (some linked);
  breakpoints = update machine.breakpoints 70 500;
  allocated = 2;
  mallocs = [];
}

abbrev pub two_cells : ℕ → Cells
two_cells = update no_cells 70 ((500, 70) ∷ (600, 326) ∷ [])

pub with_two-Holds : Holds with_two two_cells
unfolding breakpoint_hash
with_two-Holds =
    Holds-update machine-Holds with_two 70 ((500, 70) ∷ (600, 326) ∷ [])
      (cons {b = linked} (ground arith) refl refl refl refl refl
        (cons {b = blank 326} (ground arith) refl refl refl refl refl (nil refl)))
      (λ k n. ground arith) (λ k n q i. ground arith) (λ a i. ground arith) (omega arith)
      (omega arith)
