-- ===== src/Tests/Messages.antt =====
-- server.c: a connection with the stream of Tests/Streams, and messages on it.
use jujube.Base.{ap, refl, false, true, inl, [], ◌∷◌, ◌≡◌, arith}
use jujube.Base.Int.{pos, is_neg}
use jujube.Base.Words.{le_bytes, le_value}
use jujube.Base.Run.{ok, abort, Returns, ◌>>◌}
use jujube.Base.Store.{lookup}
use jujube.Stream.{got}
use jujube.Server.{Server, data_transfer}
use jujube.Server.Link.{Link, Linked}
use jujube.Server.Step.{Completes}
use jujube.Server.Header.{Fresh}
use jujube.Server.Message.{Piece, join, deliver, deliver-Completes}
use jujube.Server.Split.{Pieces, SameEffect, deliver-join}
use jujube.Server.Malformed.{Refused, data_transfer-Refused, deliver-abort}
use jujube.Server.Lost.{deliver-Refused}
use jujube.Tests.Allocator.{os, os-Gives, started}
use jujube.Tests.Streams.{made, message}
use jujube.Tests.Clients.{talking, busy}

abbrev pub link : Link
link = record {
  event = 0;
  fd = pos 4;
  call_back = (busy.events 0).call_back;
  jc = 1;
  conn = talking;
  place = 70;
  sock = pos 4;
  base = started;
  before = busy;
}

abbrev pub server : Server
server = record { world = busy; qps = 6; work = [] }

pub server-Linked : Linked link made.0 [] busy
unfolding lookup
server-Linked = record {
  event = refl;
  fd = refl;
  call_back = refl;
  conn = refl;
  points = refl;
  stream = refl;
  sock = made.3.socket;
  ready = record {
    owned = made.3.owned;
    out = made.3.out_holds;
    room = made.3.out_len;
    open_sock = ap is_neg made.3.socket;
  };
  closed = refl;
  registry = λ r act. (r, act);
  spared = record { events = λ j ne. refl; conns = refl; streams = λ b ne. refl; idle = refl };
}

pub made-Fresh : Fresh made.0
made-Fresh = record {
  work = made.3.no_work;
  left = made.3.no_message.0;
  recved = made.3.no_message.1;
}

-- The length of a message of five bytes with the first of them, and the other four.
abbrev first_piece : Piece
first_piece = record { now = 60; bytes = 5 ∷ 0 ∷ 0 ∷ 0 ∷ 0 ∷ 0 ∷ 0 ∷ 0 ∷ 10 ∷ [] }

abbrev second_piece : Piece
second_piece = record { now = 61; bytes = 20 ∷ 30 ∷ 40 ∷ 50 ∷ [] }

deliver-Completes_example :
    Returns
      (λ _ sv. Completes link message server sv)
      (deliver os (pos 4) 0 (first_piece ∷ second_piece ∷ []) server)
unfolding le_bytes join
deliver-Completes_example =
    deliver-Completes os link server made.0 message first_piece (second_piece ∷ []) server-Linked
      made-Fresh (omega arith) (omega arith)
      (omega arith, omega arith, (omega arith, omega arith, tt)) (omega arith) refl

-- The length zero.
data_transfer-Refused_example :
    Returns
      (λ _ sv. Refused link server sv)
      (data_transfer os 60 []
        (got (0 ∷ 0 ∷ 0 ∷ 0 ∷ 0 ∷ 0 ∷ 0 ∷ 0 ∷ []) ∷ [])
        (pos 4)
        true
        false
        0
        server)
unfolding le_value
data_transfer-Refused_example =
    data_transfer-Refused os 60 [] link server made.0 (0 ∷ 0 ∷ 0 ∷ 0 ∷ 0 ∷ 0 ∷ 0 ∷ 0 ∷ [])
      server-Linked made-Fresh (omega arith) (omega arith) (inl refl)

-- Half a header, and the rest.
deliver-abort_example :
    deliver os
      (pos 4)
      0
      (record { now = 60; bytes = 5 ∷ 0 ∷ 0 ∷ 0 ∷ [] } ∷ second_piece ∷ [])
      server
    ≡ abort
deliver-abort_example =
    deliver-abort os link server made.0 (record { now = 60; bytes = 5 ∷ 0 ∷ 0 ∷ 0 ∷ [] })
      second_piece [] server-Linked made-Fresh (omega arith) (omega arith)

-- The connection is closed after the first byte of the message.
deliver-Refused_example :
    Returns
      (λ _ sv. Refused link server sv)
      ((deliver os (pos 4) 0 (first_piece ∷ [])
          >> data_transfer os 61 [] (got [] ∷ []) (pos 4) true false 0)
        server)
unfolding le_value join
deliver-Refused_example =
    deliver-Refused os link 5 (omega arith) (omega arith) server made.0 first_piece [] 61
      server-Linked made-Fresh (omega arith, omega arith, tt) (omega arith) refl (omega arith)

-- All of the message in one piece.
abbrev whole : Piece
whole = record { now = 70; bytes = 5 ∷ 0 ∷ 0 ∷ 0 ∷ 0 ∷ 0 ∷ 0 ∷ 0 ∷ 10 ∷ 20 ∷ 30 ∷ 40 ∷ 50 ∷ [] }

two-Pieces : Pieces 5 first_piece (second_piece ∷ [])
unfolding le_value join
two-Pieces = record {
  readable = (omega arith, omega arith, (omega arith, omega arith, tt));
  whole_header = omega arith;
  header = refl;
  within = omega arith;
}

one-Pieces : Pieces 5 whole []
unfolding le_value join
one-Pieces = record {
  readable = (omega arith, omega arith, tt);
  whole_header = omega arith;
  header = refl;
  within = omega arith;
}

deliver-join_example :
    (sv1 : Server) × (sv2 : Server) × (deliver os (pos 4) 0 (first_piece ∷ second_piece ∷ []) server
      ≡ ok tt sv1)
    × (deliver os (pos 4) 0 (whole ∷ []) server ≡ ok tt sv2)
    × SameEffect link sv1 sv2
unfolding join
deliver-join_example =
    deliver-join os link 5 server made.0 first_piece whole (second_piece ∷ []) [] (omega arith)
      (omega arith) server-Linked made-Fresh two-Pieces one-Pieces refl
