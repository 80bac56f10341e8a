-- ===== src/Testing/Accepted.antt =====
-- Which texts a check may use as message ids, told by a test.
use txbox.Common.{Bool, true, not, ◌&&◌, ◌≡◌, List, [], ◌∷◌, arith, All, leb, nat_eq}
use txbox.Str.{Str, len, str_eq}
use txbox.Str.Trim.{all_space, first_space, last_space}
use txbox.Testing.Probes.{IsMessage}
use txbox.Types.{claim_eq, consumer_id_eq, message_id_eq, message_max_len}

-- The tests that a text must pass to be a message id.
abbrev pub accepts : Str → Bool
accepts v =
    not (all_space v) && not (first_space v) && not (last_space v) && leb (len v) message_max_len

abbrev pub all_accept : List Str → Bool
all_accept [] = true
all_accept (v ∷ ids) = accepts v && all_accept ids

pub accepts-IsMessage : (v : Str) → accepts v ≡ true → IsMessage v
accepts-IsMessage v h = record {
  clean = record {
    not_blank = ground arith;
    starts_clean = ground arith;
    ends_clean = ground arith;
  };
  short = ground arith;
}

pub ids-IsMessage : (ids : List Str) → all_accept ids ≡ true → All IsMessage ids
ids-IsMessage [] h = tt
ids-IsMessage (v ∷ ids) h = (accepts-IsMessage v (ground arith), ids-IsMessage ids (ground arith))
