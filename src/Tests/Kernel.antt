-- ===== src/Tests/Kernel.antt =====
-- Interfaces of the operating system with a concrete instance each, and the components over them.
use celeritas.Prelude.{◌≡◌, refl, true, false, some, List, [], ◌∷◌, ◌++◌, arith}
use celeritas.Text.{codes}
use celeritas.WorkQueue.{WorkQueue}
use celeritas.WorkQueue.Fifo.{Represents}
use celeritas.Socket.Accept.{AcceptAnswers, af_inet}
use celeritas.Socket.Listen.{Candidate, create_listener, to_list, create_listener-opened}
use celeritas.Listener.{listener_round}
use celeritas.Listener.Pushed.{RoundOk, listener_round-RoundOk}
use celeritas.Tests.{a_conn}

-- Two addresses: the first cannot be bound.
abbrev two_addresses : List Candidate
two_addresses =
    record { is_inet6 = true; socket = some 3; bound = false }
    ∷ record { is_inet6 = false; socket = some 4; bound = true }
    ∷ []

create_listener-opened_example :
    3 ∷ 4 ∷ []
    ≡ (create_listener (some two_addresses) true).closed
      ++ to_list (create_listener (some two_addresses) true).listen_fd
create_listener-opened_example = create_listener-opened two_addresses true

abbrev from_client : AcceptAnswers
from_client = record {
  accepted = some (9, af_inet (codes "192.0.2.1") 50000);
  stopping = false;
  ssl_created = true;
  fd_set = true;
}

abbrev empty_queue : WorkQueue
empty_queue = record {
  buf = a_conn 0 0 ∷ a_conn 0 0 ∷ [];
  capacity = 2;
  head = 0;
  tail = 0;
  count = 0;
  shutting_down = false;
}

empty_queue-Represents : Represents empty_queue []
empty_queue-Represents = record {
  storage = omega arith;
  head_in = omega arith;
  tail_is = refl;
  count_is = refl;
  count_le = omega arith;
  holds = tt;
}

listener_round-RoundOk_example :
    RoundOk from_client true false [] (listener_round true from_client false empty_queue)
listener_round-RoundOk_example =
    listener_round-RoundOk true from_client false empty_queue [] empty_queue-Represents
      (λ e. absurd (ground arith))
