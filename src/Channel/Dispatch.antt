-- ===== src/Channel/Dispatch.antt =====
-- `Channel::Handle` at a channel that logs the callbacks.
use anoii.Prelude.{ℕ, ◌≡◌, refl, Bool, true, false, none, some, List, [], ◌∷◌, Result, ok}
use anoii.Channel.{Callbacks, quiet, handle}

-- A state that is the flag and the calls so far, the last one first.
abbrev Log : Type 0
Log = Bool × List ℕ

abbrev note : ℕ → Log → Result Log
note n (handling, calls) = ok (handling, n ∷ calls)

abbrev logging : Callbacks Log
logging = record {
  read_cb = some (note 1);
  write_cb = some (note 2);
  error_cb = some (note 3);
  close_cb = none;
}

handle_test :
    handle
      (λ b s. (b, s.1))
      logging
      (record quiet {
        pollin = true;
        pollrdnorm = true;
        pollwrnorm = true;
        pollhup = true;
        pollerr = true;
      })
      (false, [])
    ≡ ok (false, 3 ∷ 2 ∷ 1 ∷ [])
unfolding handle
handle_test = refl
