-- ===== src/Scheduler/Lifecycle.antt =====
-- A scheduler from its constructor to the end of `stop`.
use simple_http_server.Base.{
  ℕ, zero, suc, ◌+◌, ◌≡◌, ◌∙◌, true, false, List, [], ◌∷◌, Option, map, arith,
}
use simple_http_server.Base.Bytes.{Bytes}
use simple_http_server.Scheduler.{Scheduler, tickle}
use simple_http_server.Scheduler.Control.{blank, tickle_times}

-- The numbers from `i` on, `n` of them.
unfoldable pub range : ℕ → ℕ → List ℕ
range i zero = []
range i (suc n) = i ∷ range (i + 1) n

pub tickle_times_lem :
    (n : ℕ) (s : Scheduler) → tickle_times n s ≡ record s { tickles = s.tickles + n }
tickle_times_lem zero s = ground arith
tickle_times_lem (suc n) s = tickle_times_lem n (tickle s) ∙ ground arith

-- The scheduler once `start` has made its threads.
abbrev pub started : (ℕ → Option ℕ) → ℕ → Bytes → ℕ → Scheduler
started id_of address name threads = record (blank address name threads) {
  threads = range 0 threads;
  thread_ids = map id_of (range 0 threads);
  is_stopping = false;
}

-- What `stop` leaves of the scheduler before it joins the threads.
abbrev pub halted : Scheduler → ℕ → Scheduler
halted c threads = record c {
  threads = [];
  is_stopping = true;
  auto_stop = true;
  tickles = c.tickles + threads;
}
