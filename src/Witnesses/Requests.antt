-- ===== src/Witnesses/Requests.antt =====
-- Witnesses for the theorems on Sentinel's HTTP interface.
use remote_pc_controller.Prelude.{true, false, some, [], ◌++◌, ◌∷◌, ◌≡◌, ◌≢◌, ◌↔◌, refl, inl, arith}
use remote_pc_controller.Prelude.Text.{Text, codes}
use remote_pc_controller.Errors.{ok}
use remote_pc_controller.Sentinel.Policy.{Command}
use remote_pc_controller.Sentinel.Replay.{Store}
use remote_pc_controller.Sentinel.Service.{World, accept}
use remote_pc_controller.Sentinel.Service.Once.{store_service}
use remote_pc_controller.Sentinel.Service.Close.{live}
use remote_pc_controller.Sentinel.Http.{Request, value, eof, command, decode_command}
use remote_pc_controller.Sentinel.Http.Replies.{Replied, command-Replied}
use remote_pc_controller.Sentinel.Http.Responses.{spawned_iff}
use remote_pc_controller.Sentinel.Http.{Response, plain}
use remote_pc_controller.Sentinel.Http.Routes.{new_handler, new_handler_spawned_iff}
use remote_pc_controller.Sentinel.Http.Server.{
  Server, spawn, acceptances, IsCovered, here, next, serve, Reach-IsCovered,
}
use remote_pc_controller.Sentinel.Http.Replayed
use remote_pc_controller.Sentinel.Http.Replayed.{spawned_once}
use remote_pc_controller.Witnesses.Services.{sample_accepted, sample_accepts, sample_in_window}
use remote_pc_controller.Witnesses.{tiny_crypto, sentinel_policy, sample_command, sample_now}

abbrev pub idle : World Store
idle = record { storage = record { entries = [] }; audit = []; hibernations = 0 }

abbrev pub post : Request
post = record {
  method = codes "POST";
  first = value sample_command;
  second = some eof;
  context = live;
  now = sample_now;
  write_fails = false;
}

command-Replied_example :
    Replied tiny_crypto
      (store_service sentinel_policy)
      post
      idle
      (command tiny_crypto (store_service sentinel_policy) post idle)
command-Replied_example = command-Replied tiny_crypto (store_service sentinel_policy) post idle

abbrev pub not_found : Text → Response
not_found path = record { status = 404; body = plain (codes "404 page not found\n") }

new_handler_spawned_iff_example :
    ((new_handler tiny_crypto
        (store_service sentinel_policy)
        not_found
        true
        (codes "/v1/commands")
        post
        idle).0.spawned
      ≡ some (record { command = sample_command }))
    ↔ ((codes "/v1/commands" ≡ codes "/v1/commands")
        × (post.write_fails ≡ false)
        × (post.method ≡ codes "POST")
        × ((c : Command) × (decode_command post.first post.second ≡ value c)
            × ((accept tiny_crypto (store_service sentinel_policy) post.context post.now c idle).0
                ≡ ok (record { command = sample_command }))))
new_handler_spawned_iff_example =
    new_handler_spawned_iff tiny_crypto (store_service sentinel_policy) not_found true
      (codes "/v1/commands") post idle (record { command = sample_command })

abbrev started : Server Store
started = record { world = idle; pending = [] }

abbrev served : Server Store
served = record {
  world = (command tiny_crypto (store_service sentinel_policy) post idle).1;
  pending = [] ++ spawn (command tiny_crypto (store_service sentinel_policy) post idle).0.spawned;
}

started-IsCovered : IsCovered tiny_crypto (store_service sentinel_policy) started
unfolding acceptances
started-IsCovered = record { covered = ground arith; hibernate_only = tt }

Reach-IsCovered_example : IsCovered tiny_crypto (store_service sentinel_policy) served
Reach-IsCovered_example =
    Reach-IsCovered tiny_crypto (store_service sentinel_policy) started-IsCovered
      (next here (serve post))

pub post_decodes : decode_command post.first post.second ≡ value sample_command
unfolding decode_command
post_decodes = refl

post_spawned :
    (command tiny_crypto (store_service sentinel_policy) post idle).0.spawned ≡ some sample_accepted
post_spawned =
    (spawned_iff tiny_crypto (store_service sentinel_policy) post idle sample_accepted).1
      (refl, refl, (sample_command, post_decodes, sample_accepts))

spawned_once_example :
    (command tiny_crypto (store_service sentinel_policy) post (
      Replayed.serve tiny_crypto sentinel_policy
        (command tiny_crypto (store_service sentinel_policy) post idle).1
        (post ∷ []))).0.spawned
    ≢ some sample_accepted
spawned_once_example =
    spawned_once tiny_crypto sentinel_policy idle post (post ∷ []) post sample_command
      sample_command sample_accepted sample_accepted tt post_decodes post_decodes (inl refl)
      post_spawned (sample_in_window, tt) sample_in_window
