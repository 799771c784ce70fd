-- ===== src/Timestamp/Tests.antt =====
-- src/timestamp.c and its receivers on concrete timestamps.
use baresip.Prelude.{◌≡◌, refl, some, none, true, false, [], ◌∷◌, arith}
use baresip.Timestamp.{wrap, forward, backward, no_wrap, TimestampRecv, duration}
use baresip.Timestamp.Epoch.{wrap-epoch}
use baresip.Timestamp.Receive.{Tracks, receive_all, duration-receive_all}

wrap_cases :
    (wrap 5 4_294_967_290 ≡ some forward)
    × (wrap 4_294_967_290 5 ≡ some backward)
    × (wrap 160 0 ≡ some no_wrap)
    × (wrap 0x7fff_ffff 0x8000_0000 ≡ none)
unfolding wrap
wrap_cases = (refl, refl, refl, refl)

abbrev fresh : TimestampRecv
fresh = record { first = 0; last = 0; is_set = false; num_wraps = 0 }

defined : wrap 5 4_294_967_290 ≡ none → ⊥
unfolding wrap
defined e = cc (e)

wrap-epoch_example : wrap 5 4_294_967_290 ≡ some forward
wrap-epoch_example = wrap-epoch 4_294_967_301 4_294_967_290 (omega arith) (omega arith) defined

duration-receive_all_example :
    (ts : TimestampRecv) × (receive_all fresh (4_294_967_200 ∷ 4_294_967_360 ∷ 5_000_000_000 ∷ [])
      ≡ some ts)
    × (duration ts ≡ 705_032_800)
duration-receive_all_example =
    duration-receive_all fresh 4_294_967_200 (4_294_967_360 ∷ 5_000_000_000 ∷ []) refl refl
      (omega arith) (omega arith)

-- The sender began at 100; the receiver has just seen 5 behind the first wrap-around.
abbrev wrapped : TimestampRecv
wrapped = record { first = 100; last = 5; is_set = true; num_wraps = 1 }

wrapped-Tracks : Tracks wrapped 100 4_294_967_301
wrapped-Tracks = record {
  is_set = refl;
  first = refl;
  last = refl;
  start = omega arith;
  num_wraps = refl;
}
