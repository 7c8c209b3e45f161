-- ===== src/Tcp/Selector/Sample.antt =====
-- A kernel that keeps the events in a function, for tests.
use budd.Common.{ℕ, refl, Option, none, some}
use budd.Tcp.Selector.{put, Epoll}

abbrev pub kernel : Epoll (ℕ → Option ℕ)
kernel = record {
  interest = λ e fd. e fd;
  ctl_add = λ fd events e. put fd (some events) e;
  ctl_mod = λ fd events e. put fd (some events) e;
  ctl_del = λ fd e. put fd none e;
  interest-ctl_add = λ fd events e h k. refl;
  interest-ctl_mod = λ fd events old e h k. refl;
  interest-ctl_del = λ fd old e h k. refl;
}
