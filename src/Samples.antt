-- ===== src/Samples.antt =====
-- Sample data for the tests: rows of the tables, and concrete instances of the interfaces to the
-- crates, smaller than the real ones.
mod Queue
mod Wire
mod Store
mod History
pub use Wire.{sample_framing, sample_hex}
pub use History.{sample_objects}
pub use Store.{sample_git}
pub use Queue.{sample_channels, sample_channels-ChannelLaws}
use gitarena.Prelude.{
  ℕ, Bool, true, false, Option, none, some, List, [], ◌∷◌, Text, Bytes, codes, text_eq, starts_with,
  if◌then◌else◌,
}
use gitarena.Error.{Result, ok}
use gitarena.Database.{
  Email, User, Repository, RepoVisibility, public, internal, private, Privilege, AccessLevel, coder,
  Db, Setting, string, Connection,
}
use gitarena.BasicAuth.{Crypto}
use gitarena.Request.{Request}
use gitarena.GitIo.Writer.{new}
use gitarena.World.{Externals, World}

abbrev pub alice : User
alice = record {
  id = 1;
  username = codes "alice";
  password = codes "secret";
  disabled = false;
  admin = false;
}

abbrev pub bob : User
bob = record {
  id = 2;
  username = codes "bob";
  password = codes "hunter2";
  disabled = false;
  admin = false;
}

abbrev pub bobs_email : Email
bobs_email = record {
  owner = 2;
  email = codes "bob@example.com";
  primary = true;
  commit = true;
  notification = true;
  public = true;
  created_at = 5;
  verified_at = none;
}

abbrev pub repo_of : RepoVisibility → Repository
repo_of visibility = record {
  id = 7;
  owner = 1;
  name = codes "tools";
  description = [];
  visibility = visibility;
  default_branch = codes "main";
  license = none;
  forked_from = none;
  mirrored_from = none;
  archived = false;
  disabled = false;
}

-- Alice owns a private repository, into which Bob may push.
abbrev pub sample_db : Db
sample_db = record {
  users = alice ∷ bob ∷ [];
  emails = [];
  repositories = repo_of private ∷ [];
  privileges = record { id = 1; user_id = 2; repo_id = 7; access_level = coder } ∷ [];
  sessions = [];
  stars = [];
  verifications = [];
  settings =
      record {
        key = codes "repositories.base_dir";
        value = some (codes "/srv");
        type_constraint = string;
      }
      ∷ [];
  next_id = 8;
}

-- Text stands for itself, and a password is stored as it is.
abbrev pub sample_crypto : Crypto
sample_crypto = record { decode_base64 = some; verify = λ stored sent. ok (text_eq stored sent) }

abbrev pub bob_header : Text
bob_header = codes "Basic bob:hunter2"

abbrev pub as_bob : Request
as_bob = record { headers = (codes "authorization", some bob_header) ∷ [] }

abbrev pub sample_externals : Externals
sample_externals = record {
  git = sample_git;
  frame = sample_framing;
  hex = sample_hex;
  crypto = sample_crypto;
  lower = λ t. t;
  request_lines = sample_framing.read;
  search_in = λ pattern bytes. if starts_with bytes pattern then some 0 else none;
  lowercase = λ t. t;
}

-- The repository of Alice, with the given references.
abbrev pub world_with : (Text → Option ℕ) → World sample_git
world_with refs = record {
  connection = record { committed = sample_db; current = sample_db };
  disk = λ path. if text_eq path (codes "/srv/alice/tools") then some refs else none;
  writer = new;
}
