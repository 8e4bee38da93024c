-- ===== src/Tests/Database.antt =====
-- mongo/ at concrete inputs.
use core_shared.Base.{◌≤◌, codes, false, none, some, List, [], ◌∷◌, ◌≡◌, ◌≢◌, refl, All, arith}
use core_shared.Apperror.{plain}
use core_shared.Mongo.Collection.{Unicode, to_snake_case}
use core_shared.Mongo.Collection.Laws.{type_name_of, type_name_of-to_snake_case}
use core_shared.Mongo.Client.{
  Options, Client, ok, fault, new_client, dialled, Driver, standard, seconds,
}
use core_shared.Mongo.Client.Settled.{dial_count}
use core_shared.Mongo.Client.Once.{Op, op_ping, op_close, op_collection, run_all, client_runs}

abbrev ascii_only : Unicode
ascii_only = record { wide_upper = λ _. false; wide_lower = λ c. c }

snake_run : to_snake_case ascii_only (codes "AnalysisJob") ≡ codes "analysis_job"
unfolding to_snake_case
snake_run = refl

type_name_of-to_snake_case_example :
    type_name_of (to_snake_case ascii_only (codes "AnalysisJob")) ≡ codes "AnalysisJob"
type_name_of-to_snake_case_example =
    type_name_of-to_snake_case ascii_only (codes "AnalysisJob") (omega arith) refl

abbrev given : Options
given = record {
  uri = codes "mongodb://localhost";
  database = codes "dev";
  max_pool_size = 0;
  connect_timeout = 0;
  server_selection_timeout = 0;
  registry = none;
  logger = none;
}

abbrev built : Client
built = record {
  opts = record given {
    max_pool_size = 512;
    connect_timeout = seconds 10;
    server_selection_timeout = seconds 10;
    registry = some standard;
  };
  logger = standard;
  once = false;
  conn_err = none;
  client = none;
  db = none;
}

new_client_run : new_client given ≡ ok built
unfolding new_client
new_client_run = refl

-- The cluster answers the dial and not the ping; then it answers all.
abbrev down : Driver
down = record {
  connects = dialled 7;
  ping = λ _. some (plain (codes "no primary"));
  disconnect = λ _. none;
  list_collections = λ _ _. none;
}

abbrev up : Driver
up = record {
  connects = dialled 8;
  ping = λ _. none;
  disconnect = λ _. none;
  list_collections = λ _ _. none;
}

abbrev calls : List (Op × Driver)
calls = (op_ping, down) ∷ (op_collection (codes "jobs"), up) ∷ (op_close, up) ∷ []

client_runs_example :
    (dial_count (run_all calls (record { c = built; trace = [] })).0 ≤ 1)
    × All (λ o. o ≢ fault) (run_all calls (record { c = built; trace = [] })).1
client_runs_example = client_runs given built calls new_client_run
