-- ===== src/Http/Server/Forms/Tests.antt =====
-- A form in two reads: POST /b HTTP/1.0, and then x=1.
use budd.Common.{◌≡◌, refl, false, some, [], ◌∷◌, ◌++◌, arith, take, Bytes, codes, digits, equal}
use budd.Outcome.{ok}
use budd.Buffer.Contents.{contents}
use budd.Http.Dict.{lookup, assign}
use budd.Http.Parameter.{post, application_form, get_status_message_by_code, message_in}
use budd.Http.Request.{
  content_type, content_length, get_header, stoi, stoi_signed, stoi_digits, skip_space,
  digits_value, to_size, clear,
}
use budd.Http.Parser.{expect_start_line}
use budd.Http.Parser.Message.{Message, print, IsPrintable}
use budd.Http.Response.{set_header, set_keep_alive_limit}
use budd.Http.Server.{Connection, HttpServer, default_response, select_func, index, on_message}
use budd.Http.Server.Forms.{continue_text, posted_as, two_reads-Served}
use budd.Http.Server.Requests.{Served}
use budd.Http.Server.Tests.{
  holding, new, idle, idle-IsReady, answer, server, answered, answered-IsSmall,
}
use budd.Tcp.Connection.{failed, wrote}
use budd.Tcp.Connection.Drain.{IsReady}

abbrev pair : Bytes × Bytes
pair = (codes "x", codes "1")

abbrev posting : Message
posting = record {
  method = post;
  path = codes "/b";
  query = [];
  newer = false;
  headers = (codes "Content-Type", application_form) ∷ (codes "Content-Length", codes "3") ∷ [];
}

posting-IsPrintable : IsPrintable posting
posting-IsPrintable = record {
  known = λ e. cc;
  path_plain = omega arith;
  query_plain = tt;
  target_one_word = omega arith;
  target_one_line = omega arith;
  header_lines = omega arith;
}

abbrev accepting : HttpServer
accepting = record server { handle_post_func_maps = (codes "/b", some answer) ∷ [] }

abbrev before : Connection
before = record idle { input_buffer = holding (print posting []) }

before-IsReady : IsReady before
before-IsReady = record {
  valid = idle-IsReady.valid;
  up = idle-IsReady.up;
  asked = idle-IsReady.asked;
}

two_reads-Served_example :
    (c₁ : Connection) × (c₂ : Connection) × (on_message
        (λ d. d)
        (codes "::1")
        before
        accepting
        (wrote 25)
        failed
      ≡ ok (c₁, accepting))
    × (c₁.sent ≡ [] ++ take 25 continue_text)
    × (contents c₁.input_buffer ≡ [])
    × (on_message
          (λ d. d)
          (codes "::1")
          (record c₁ { input_buffer = holding (codes "x=1") })
          accepting
          failed
          (wrote 3)
        ≡ ok (c₂, accepting))
    × Served
        (λ d. d)
        c₁
        (record {
          request = clear (posted_as posting (pair ∷ []) new.request);
          parse_finished = false;
          parser = expect_start_line;
        })
        answered
        3
        c₂
unfolding select_func index lookup equal default_response set_keep_alive_limit set_header assign
    get_header digits get_status_message_by_code message_in content_type content_length stoi
    stoi_signed stoi_digits skip_space digits_value to_size
two_reads-Served_example =
    two_reads-Served (λ d. d) before new posting 2 pair [] (holding (codes "x=1")) accepting
      accepting answer answered (codes "::1") 25 3 failed failed before-IsReady refl (omega arith)
      refl (omega arith) refl posting-IsPrintable (omega arith) tt refl refl refl refl refl refl
      refl answered-IsSmall (omega arith) (omega arith) (omega arith)
