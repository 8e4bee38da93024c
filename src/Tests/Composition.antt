-- ===== src/Tests/Composition.antt =====
-- Parts of the repository that are put together, at concrete inputs: a client and a handler, and a
-- repository on a client.
use core_shared.Base.{
  ℕ, ◌≤◌, Text, codes, true, false, Option, none, some, List, [], ◌∷◌, ◌++◌, ◌≡◌, refl, arith,
  length, sym,
}
use core_shared.Json.{decimal, render}
use core_shared.Apperror.{
  plain, wrapped, to_error, because, b, MaybeError, new_coded, coded, as_app,
}
use core_shared.Returns.{Result, ok, err}
use core_shared.Http.{Conn, new_conn, server, conn_write, conn_write_header}
use core_shared.Response.{error, reported, to_json}
use core_shared.Response.Envelope.{error_object}
use core_shared.Client.Requests.{HttpClient, Net, Incoming, default_transport, get_json}
use core_shared.Client.ServiceErrors.{get_json-error}
use core_shared.Mongo.Client
use core_shared.Mongo.Client.{
  dialled, standard, seconds, connect, connected, first_connect, after_dial, after_ping, new_client,
}
use core_shared.Mongo.Repository.{Driver, Single, no_documents, decoded}
use core_shared.Mongo.Repository.Paging.{limited, skipped}
use core_shared.Mongo.Repository.Offline.{Call, c_insert_one, c_insert_many, c_count}
use core_shared.Mongo.Repository.Connected.{Repository, calls_on}
use core_shared.Mongo.Repository.Connected.Settling.{reported_offline, calls_on-reported_offline}

abbrev client : HttpClient
client = record {
  base_url = codes "http://users";
  timeout = 0;
  transport = default_transport;
  logger = [];
  headers = [];
}

-- What the other service wraps stays with it.
abbrev missing : MaybeError
missing = because (
    wrapped (codes "select from users") (
      to_error
        (b (codes "URS") (codes "USER") (codes "USER_NOT_FOUND") (codes "user not found") 404)))

abbrev answer : Incoming
answer = record {
  status = 404;
  url = codes "http://users/1";
  body = (error Conn server missing new_conn).0.body;
}

abbrev net : Net
net = record { new_request = λ _ _. none; round_trip = λ _. ok answer }

abbrev verbatim : Text → Result Text
verbatim t = ok t

sent_status : (error Conn server missing new_conn).0.status ≡ some 404
unfolding error b new_coded coded as_app server conn_write_header to_json conn_write
sent_status = refl

short_envelope : length (render (error_object (reported missing))) ≤ 4095
unfolding b new_coded coded as_app render
short_envelope = omega arith

found_status : (reported missing).http_status ≡ 404
unfolding b new_coded as_app
found_status = refl

get_json-error_example :
    (get_json verbatim true net client (codes "1") []).1
    ≡ err (
        plain (
          codes "http "
          ++ decimal (reported missing).http_status
          ++ codes ": "
          ++ render (error_object (reported missing))))
get_json-error_example =
    get_json-error verbatim true missing net client (codes "1") answer refl refl (sym sent_status)
      refl (omega (arith, found_status)) (omega (arith, found_status)) short_envelope

-- A repository of numbers on a client whose cluster answers the dial and not the ping, and
-- answers all later.
abbrev Numbers : Type 0
Numbers = List ℕ

abbrev Nothing : Type 0
Nothing = Unit {0}

abbrev in_order : Option Nothing → Nothing → Numbers → Numbers
in_order sort filter d = d

abbrev first : Numbers → Single ℕ
first [] = no_documents
first (x ∷ xs) = decoded x

abbrev numbers :
    Driver ℕ Nothing Nothing Nothing Nothing Nothing Nothing Nothing Numbers Nothing Numbers
numbers = record {
  everything = tt;
  by_id = λ _. tt;
  by_code = λ _. tt;
  oid_from_hex = λ _. ok tt;
  id_of = λ _. codes "1";
  code_of = λ _. codes "";
  empty_summary = tt;
  find = λ o f d. ok (limited o.limit (skipped o.skip d));
  all = λ c. ok c;
  find_one = λ _ _ d. first d;
  count = λ _ _. ok 0;
  estimated_count = λ _. ok 0;
  distinct = λ _ _ _. ok (ok []);
  insert_one = λ x d. (x ∷ d, none);
  insert_many = λ xs d. (xs, none);
  update_one = λ _ _ _ d. (d, ok 0);
  update_many = λ _ _ _ d. (d, ok 0);
  find_one_and_update = λ _ _ _ _ d. (d, first d);
  find_one_and_delete = λ _ d. (d, first d);
  replace_one = λ _ _ d. (d, none);
  delete_one = λ _ d. (d, ok 0);
  delete_many = λ _ d. ([], ok 0);
  bulk_write = λ _ d. (d, ok tt);
  create_index = λ _ d. (d, none);
  create_indexes = λ _ d. (d, none);
}

abbrev given : Client.Options
given = record {
  uri = codes "mongodb://localhost";
  database = codes "dev";
  max_pool_size = 0;
  connect_timeout = 0;
  server_selection_timeout = 0;
  registry = none;
  logger = none;
}

abbrev built : Client.Client
built = record {
  opts = record given {
    max_pool_size = 512;
    connect_timeout = seconds 10;
    server_selection_timeout = seconds 10;
    registry = some standard;
  };
  logger = standard;
  once = false;
  conn_err = none;
  client = none;
  db = none;
}

new_client_run : new_client given ≡ Client.ok built
unfolding new_client
new_client_run = refl

-- The cluster answers the dial and not the ping; then it answers all.
abbrev down : Client.Driver
down = record {
  connects = dialled 7;
  ping = λ _. some (plain (codes "no primary"));
  disconnect = λ _. none;
  list_collections = λ _ _. none;
}

abbrev up : Client.Driver
up = record {
  connects = dialled 8;
  ping = λ _. none;
  disconnect = λ _. none;
  list_collections = λ _ _. none;
}

abbrev jobs : Repository
jobs = record { collection_name = codes "jobs" }

abbrev calls : List (Call numbers × Client.Driver)
calls = (c_insert_one 9, up) ∷ (c_insert_many [], up) ∷ (c_count none, up) ∷ []

calls_on-reported_offline_example :
    (let w = (connect down (record { c = built; trace = [] })).0 in
      calls_on numbers jobs calls (w, 7 ∷ [])
      ≡ ((w, 7 ∷ []), reported_offline numbers (plain (codes "no primary")) calls))
unfolding connect connected first_connect after_dial after_ping
calls_on-reported_offline_example =
    calls_on-reported_offline numbers given built down jobs calls (7 ∷ [])
      (plain (codes "no primary")) new_client_run refl
