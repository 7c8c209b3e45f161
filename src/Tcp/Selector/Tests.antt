-- ===== src/Tcp/Selector/Tests.antt =====
-- Two channels, and the theorems on them.
use budd.Common.{ℕ, zero, suc, ◌≡◌, ◌≢◌, refl, inl, Option, none, some, arith, List, [], ◌∷◌, true}
use budd.Outcome.{ok, err, fatal}
use budd.Tcp.Channel.{read_event, write_event, error_event, empty_event}
use budd.Tcp.Selector.{
  Handle, put, Selector, enable_read, enable_write, enable_error, disable_events, reported, select,
}
use budd.Tcp.Selector.Sample.{kernel}
use budd.Tcp.Selector.Interest.{AgreesAt-all, AgreesAt-by, put_other, Agrees, Asks}
use budd.Tcp.Selector.Channels.{enable_lem}
use budd.Tcp.Selector.Active.{Activated, select_lem}
use budd.Tcp.EventLoop.Create.{create}
use budd.Tcp.EventLoop.Destroy.{destroy, create-destroy}
use budd.Tcp.EventLoop.Loop.{Loop}

-- The channel 0 has the descriptor 5 and is registered, the channel 1 the descriptor 6.
abbrev handles : ℕ → Handle
handles zero = record { event_loop = 9; fd = 5; events = 0; revents = 0 }
handles (suc p) = record { event_loop = 9; fd = 6; events = 0; revents = 0 }

abbrev two : Selector (ℕ → Option ℕ)
two = record {
  epoll = put 5 (some 0) (λ fd. none);
  channel_maps = put 5 (some 0) (λ fd. none);
  channels = handles;
}

two-Agrees : Agrees kernel two
two-Agrees =
    AgreesAt-all kernel handles 5 (put 5 (some 0) (λ fd. none)) (put 5 (some 0) (λ fd. none))
      (refl, refl)
      (λ k away.
        AgreesAt-by kernel handles k (put_other 5 k (some 0) (λ fd. none) away)
          (put_other 5 k (some 0) (λ fd. none) away) refl)

some≢none : {a : ℕ} → some a ≢ none
some≢none h = cc

enable_lem_example :
    ((s' : Selector (ℕ → Option ℕ)) × (enable_read kernel true 1 two ≡ ok s')
      × Asks kernel 1 read_event two s')
    × ((s' : Selector (ℕ → Option ℕ)) × (enable_write kernel true 1 two ≡ ok s')
        × Asks kernel 1 write_event two s')
    × ((s' : Selector (ℕ → Option ℕ)) × (enable_error kernel true 1 two ≡ ok s')
        × Asks kernel 1 error_event two s')
    × ((s' : Selector (ℕ → Option ℕ)) × (disable_events kernel true 1 two ≡ ok s')
        × Asks kernel 1 empty_event two s')
enable_lem_example = enable_lem kernel 1 two two-Agrees (inl refl)

select_lem_example :
    (ps : List ℕ) × (s' : Selector (ℕ → Option ℕ)) × (select (reported ((5, 1) ∷ [])) two
      ≡ ok (ps, s'))
    × Activated two.channel_maps s'.channels ((5, 1) ∷ []) ps
    × Agrees kernel s'
select_lem_example = select_lem kernel ((5, 1) ∷ []) two two-Agrees (some≢none, tt) (tt, tt)

-- A kernel that was asked for nothing, for a new loop with the channels 0 and 1.
abbrev fresh_selector : Selector (ℕ → Option ℕ)
fresh_selector = record { epoll = λ fd. none; channel_maps = λ fd. none; channels = handles }

create-destroy_example :
    (l : Loop (ℕ → Option ℕ) ℕ ℕ) × (t : Selector (ℕ → Option ℕ)) × (thread_local : Option ℕ)
    × (l' : Loop (ℕ → Option ℕ) ℕ ℕ) × (create kernel 9 none 0 1 7 fresh_selector ≡ ok (l, some 9))
    × (create kernel {K = ℕ} {W = ℕ} 8 (some 9) 0 1 7 fresh_selector ≡ err fatal)
    × (destroy kernel true 0 l ≡ ok (t, thread_local))
    × Agrees kernel t
    × (t.epoll (l.selector.channels 0).fd ≡ none)
    × (create kernel 8 thread_local 0 1 7 fresh_selector ≡ ok (l', some 8))
create-destroy_example =
    create-destroy kernel 9 8 0 1 7 fresh_selector (λ fd. refl) (λ fd. refl) (λ e. omega (arith, e))
