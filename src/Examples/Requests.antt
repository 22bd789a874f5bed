-- ===== src/Examples/Requests.antt =====
-- Requests to the message relay, over the store of one agent and one message.
use forge_grid.Prelude.{none-ne-some, ◌∙◌, pos, ◌≡◌, refl, sym, String, none, some, cut_prefix}
use forge_grid.Dict.{lookup}
use forge_grid.Disk.Memory.{Memory, memory}
use forge_grid.Bridge.Models.{MessageRequest, one}
use forge_grid.Bridge.Store.Add.{IsIndexed}
use forge_grid.Bridge.Auth.{empty_limiter, credentials, authenticate, admit, check_header}
use forge_grid.Bridge.Auth.Credentials.{IsGenuine, authenticate_iff}
use forge_grid.Bridge.Server.{Server, Request, Libraries, serve}
use forge_grid.Bridge.Server.Access.{serve_unauthorized, serve-IsIndexed}
use forge_grid.Examples.Bridge.{json, small, small-IsIndexed, same_text}

abbrev pub wanted : MessageRequest
wanted = record {
  recipient = "bob";
  task_id = "t1";
  type = "answer";
  body = "hello";
  ttl = pos 60;
  idempotency_key = "k1";
}

abbrev pub libs : Libraries Memory
libs = record {
  os = memory;
  store_json = json;
  request_json = record {
    decode_message = λ n text. one wanted;
    decode_result = λ n text. one text;
  };
  sha256_hex = same_text;
}

abbrev post : Request
post = record {
  remote = "10.0.0.1:4000";
  authorization = "Basic bob:secret";
  method = "POST";
  path = "/api/v1/agent-messages";
  body = "{}";
}

abbrev server : Server Memory
server = record { store = small; limits = empty_limiter }

nobody : (name : String) → ¬ IsGenuine same_text "Basic bob:secret" name small
unfolding authenticate admit check_header credentials cut_prefix lookup
nobody name g =
    let entered =
      (authenticate_iff same_text "10.0.0.1:4000" "Basic bob:secret" name 5 small empty_limiter).1
        (refl, g) in
    none-ne-some (sym (refused ∙ entered))
  where
    refused :
        none ≡ (authenticate same_text "10.0.0.1:4000" "Basic bob:secret" 5 small empty_limiter).1
    refused = refl

serve_unauthorized_example : (serve libs (some "m2") post 5 server).0.store ≡ small
serve_unauthorized_example = serve_unauthorized libs (some "m2") post 5 server nobody

serve-IsIndexed_example : IsIndexed (serve libs (some "m2") post 5 server).0.store.messages
serve-IsIndexed_example = serve-IsIndexed libs (some "m2") post 5 server small-IsIndexed
