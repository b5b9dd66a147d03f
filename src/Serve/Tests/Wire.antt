-- ===== src/Serve/Tests/Wire.antt =====
-- A concrete serialisation of what a client says.
use devpipe.Proto.Messages.{
  FromClient, Json, opens, closes, create_environment, start_environment, stop_environment,
  destroy_environment, set_secret, remove_secret, list_secrets, describe, watch, ping, hello, pty,
}
use devpipe.Keys.Tests.{
  maybe, text_maybe, text_maybe-maybe, write_texts, read_texts, read-write_texts,
}
use devpipe.Prelude.{suc, zero, ◌∷◌, [], List, some, none, Option, false, true, ◌∙◌, ap, refl, ◌≡◌}
use devpipe.Prelude.Text.{Text}

pub message_texts : FromClient → List Text
unfolding maybe
message_texts (hello v token client) = (0 ∷ v ∷ []) ∷ token ∷ client ∷ []
message_texts (opens channel (pty e s argv cols rows)) =
    (1 ∷ channel ∷ cols ∷ rows ∷ []) ∷ maybe e ∷ maybe s ∷ argv
message_texts (closes channel) = (2 ∷ channel ∷ []) ∷ []
message_texts (create_environment name image ports repo memory) =
    (3 ∷ ports) ∷ name ∷ maybe image ∷ maybe repo ∷ maybe memory ∷ []
message_texts (start_environment id) = (4 ∷ id) ∷ []
message_texts (stop_environment id) = (5 ∷ id) ∷ []
message_texts (destroy_environment id) = (6 ∷ id) ∷ []
message_texts (set_secret key value) = (7 ∷ key) ∷ value ∷ []
message_texts (remove_secret key) = (8 ∷ key) ∷ []
message_texts list_secrets = (9 ∷ []) ∷ []
message_texts describe = (10 ∷ []) ∷ []
message_texts (watch true) = (11 ∷ []) ∷ []
message_texts (watch false) = (12 ∷ []) ∷ []
message_texts ping = (13 ∷ []) ∷ []

pub texts_message : List Text → Option FromClient
unfolding text_maybe
texts_message ((zero ∷ v ∷ []) ∷ token ∷ client ∷ []) = some (hello v token client)
texts_message (((suc zero) ∷ channel ∷ cols ∷ rows ∷ []) ∷ e ∷ s ∷ argv) =
    some (opens channel (pty (text_maybe e) (text_maybe s) argv cols rows))
texts_message (((suc (suc zero)) ∷ channel ∷ []) ∷ []) = some (closes channel)
texts_message (((suc (suc (suc zero))) ∷ ports) ∷ name ∷ image ∷ repo ∷ memory ∷ []) =
    some (create_environment name (text_maybe image) ports (text_maybe repo) (text_maybe memory))
texts_message (((suc (suc (suc (suc zero)))) ∷ id) ∷ []) = some (start_environment id)
texts_message (((suc (suc (suc (suc (suc zero))))) ∷ id) ∷ []) = some (stop_environment id)
texts_message (((suc (suc (suc (suc (suc (suc zero)))))) ∷ id) ∷ []) = some (destroy_environment id)
texts_message (((suc (suc (suc (suc (suc (suc (suc zero))))))) ∷ key) ∷ value ∷ []) =
    some (set_secret key value)
texts_message (((suc (suc (suc (suc (suc (suc (suc (suc zero)))))))) ∷ key) ∷ []) =
    some (remove_secret key)
texts_message (((suc (suc (suc (suc (suc (suc (suc (suc (suc zero))))))))) ∷ []) ∷ []) =
    some list_secrets
texts_message (((suc (suc (suc (suc (suc (suc (suc (suc (suc (suc zero)))))))))) ∷ []) ∷ []) =
    some describe
texts_message (((suc (suc (suc (suc (suc (suc (suc (suc (suc (suc (suc zero))))))))))) ∷ []) ∷ []) =
    some (watch true)
texts_message
      (((suc (suc (suc (suc (suc (suc (suc (suc (suc (suc (suc (suc zero)))))))))))) ∷ []) ∷ []) =
    some (watch false)
texts_message
      (((suc (suc (suc (suc (suc (suc (suc (suc (suc (suc (suc (suc (suc zero))))))))))))) ∷ [])
        ∷ []) =
    some ping
texts_message _ = none

texts_message-message_texts : (m : FromClient) → texts_message (message_texts m) ≡ some m
unfolding texts_message message_texts
texts_message-message_texts (hello v token client) = refl
texts_message-message_texts (opens channel (pty e s argv cols rows)) =
    rw (text_maybe-maybe e, text_maybe-maybe s) refl
texts_message-message_texts (closes channel) = refl
texts_message-message_texts (create_environment name image ports repo memory) =
    rw (text_maybe-maybe image, text_maybe-maybe repo, text_maybe-maybe memory) refl
texts_message-message_texts (start_environment id) = refl
texts_message-message_texts (stop_environment id) = refl
texts_message-message_texts (destroy_environment id) = refl
texts_message-message_texts (set_secret key value) = refl
texts_message-message_texts (remove_secret key) = refl
texts_message-message_texts list_secrets = refl
texts_message-message_texts describe = refl
texts_message-message_texts (watch true) = refl
texts_message-message_texts (watch false) = refl
texts_message-message_texts ping = refl

pub client_json-law :
    (m : FromClient) → texts_message (read_texts (write_texts (message_texts m))) ≡ some m
client_json-law m =
    ap texts_message (read-write_texts (message_texts m)) ∙ texts_message-message_texts m

abbrev pub client_json : Json FromClient
client_json = record {
  to_vec = λ m. write_texts (message_texts m);
  from_slice = λ bytes. texts_message (read_texts bytes);
  from_slice-to_vec = client_json-law;
}
