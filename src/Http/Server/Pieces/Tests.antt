-- ===== src/Http/Server/Pieces/Tests.antt =====
-- The first two bytes of a request.
use budd.Common.{◌≡◌, refl, some, [], ◌++◌, arith, take, drop, codes}
use budd.Outcome.{ok}
use budd.Buffer.Contents.{contents}
use budd.Http.Server.{Connection, on_message}
use budd.Http.Server.Pieces.{refusal_text, piece_of_line-refused}
use budd.Http.Server.Tests.{holding, new, idle, idle-IsReady, server}
use budd.Tcp.Connection.{disconnecting, failed, wrote}
use budd.Tcp.Connection.Drain.{IsReady}

abbrev begun : Connection
begun = record idle { input_buffer = holding (codes "GE") }

begun-IsReady : IsReady begun
begun-IsReady = record {
  valid = idle-IsReady.valid;
  up = idle-IsReady.up;
  asked = idle-IsReady.asked;
}

piece_of_line-refused_example :
    (c' : Connection) × (on_message (λ d. d) (codes "::1") begun server (wrote 28) failed
      ≡ ok (c', server))
    × (c'.state ≡ disconnecting)
    × (c'.sent ≡ [] ++ take 28 refusal_text)
    × (contents c'.output_buffer ≡ [] ++ drop 28 refusal_text)
    × (contents c'.input_buffer ≡ codes "GE")
    × (c'.context ≡ some new)
piece_of_line-refused_example =
    piece_of_line-refused (λ d. d) begun new server (codes "::1") 28 failed begun-IsReady refl
      (omega arith) tt (omega arith) (omega arith) (omega arith)
