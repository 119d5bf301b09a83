-- ===== src/Examples/CredentialFiles.antt =====
-- Tests of the parsed credential file, in which texts are folded already.
use panopticon_next.Base.{◌≡◌, ◌↔◌, String, refl, none, some, List, [], ◌∷◌, ok}
use panopticon_next.Base.Table.{lookup}
use panopticon_next.Taskservice.Auth.{Privilege, authenticate_token}
use panopticon_next.Taskservice.Auth.Files.{Field, parse_tokens, checked_tokens}
use panopticon_next.Taskservice.Auth.Privileges.{Lists, authenticate_token-parse_tokens}
use panopticon_next.Examples.Credentials.{toy, configured}

abbrev file : List (String × Field)
file =
    ("write", Field.list (some "runner-write" ∷ []))
    ∷ ("read", Field.list (some "dashboard-read" ∷ []))
    ∷ []

file_accepted : parse_tokens (λ s. s) (some file) ≡ ok configured
unfolding parse_tokens checked_tokens lookup
file_accepted = refl

authenticate_token-parse_tokens_example :
    ((authenticate_token toy configured "dashboard-read"
        ≡ some (record { privilege = Privilege.read; task_id = none }))
      ↔ Lists (lookup "read" file) "dashboard-read")
    × ((authenticate_token toy configured "dashboard-read"
          ≡ some (record { privilege = Privilege.write; task_id = none }))
        ↔ Lists (lookup "write" file) "dashboard-read")
authenticate_token-parse_tokens_example =
    authenticate_token-parse_tokens (λ s. s) toy file configured "dashboard-read" file_accepted
