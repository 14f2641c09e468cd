-- ===== src/Lib.antt =====
-- A model of the synchronisation of passwords between devices: the server that numbers and hands
-- out encrypted entries, the client that follows it, and what they share. Users are members of
-- groups; a group has a data key in numbered versions, wrapped for each member in an envelope;
-- entries are sealed under the data key. The server keeps rows and numbers, and never sees a
-- key. The client keeps a copy of the rows, pulls what changed after its cursor, pushes what it
-- edited against the version it knew, and merges or records a conflict when it was overtaken.
--
-- Parts, their files and their sources:
--
--   Store      server/store: tables (Store/Rows), queries (Store/Queries), statements and
--              transactions (Store/Tx), the writes of access (Store/Access), invites and
--              requests (Store/Registry), the well-formedness of the tables (Store/Laws)
--   Proto      internal/proto: the types of the messages, error codes and HTTP statuses
--   Sync       server/sync: push.go (Sync/Push), pull.go (Sync/Pull), envelopes.go
--              (Sync/Envelopes), notify.go (Sync/Hub), tombstone.go and audit_cleaner.go
--              (Sync/Cleaners), offline_monitor.go (Sync/OfflineMonitor)
--   Authn      server/authn/service.go: the bootstrap of the first administrator (Authn), the
--              challenges and the registration of devices (Authn/Devices) and runs of both
--              (Authn/Runs); server/middleware/auth.go, auditlog.go and server/api/auth.go: the
--              check and the refresh of tokens (Authn/Tokens)
--   Registration
--              server/api/register.go: requests with an invite (Registration);
--              server/api/admin_invites.go: invites and the review of requests
--              (Registration/Admin)
--   Administration
--              server/api/admin.go: revocation, key files, members (Administration); accounts,
--              groups and devices (Administration/Groups)
--   Middleware server/middleware/ratelimit.go: the limiter and the lockout
--   Client     client/core/store, the local tables (Client/Local); client/core/syncer: the cursor
--              of engine.go (Client/Cursor), how it applies a pulled change (Client/Engine) and
--              pushes dirty rows (Client/Outbox), the whole round of `syncOnce` (Client/Round),
--              wrap.go (Client/Sharing), rekey.go (Client/Rekey), backoff.go (Client/Backoff);
--              what a round works on, and the server that it calls, are in Client/Session and
--              Client/Served;
--              client/core/vault: dekcache.go (Client/Keys), crypt.go and the local columns of
--              vault.go (Client/Sealing), and the vault that they make up (Client/Vault);
--              client/core/core.go: what a user does to an entry (Client/Actions)
--   Merge      internal/merge/merge.go: the three-way merge of JSON values
--   Crypto     internal/crypto: the length-prefixed encoding and the HMAC's message
--              (Crypto/LengthPrefix), the checks around SM4-GCM and the derived keys
--              (Crypto/Sm4Gcm)
--   Scenarios  test data, and each theorem applied to it
--
-- The functions keep their names (`pushOne` is `push_one`) and take the tables as an argument,
-- with the tables that they leave in their result. A handler's reads outside of a transaction
-- see the tables that it is given. A transaction is a function of the tables that fails with a
-- store error; with_tx gives back the tables of before on failure. Each statement of the driver
-- may fail: the `fails` of a store, a server's or a client's, says which, and is a parameter.
-- Identifiers are numbers, bytes are numbers and a string of them a list; times are seconds or
-- milliseconds as in the source. The Go numbers of the wire are natural numbers, but for the
-- cursor of a pull and the days of an invite, integers, as the source clamps them; key versions are
-- never negative, so the clamp of EntryHMAC is left out. Go maps are lists of keys, and their order
-- of iteration is not modelled.
--
-- Where the client handles rows, its vault's calls, its random identifiers and the merge of two
-- plain texts are a parameter (`Vault`), with what is assumed of them at each theorem. The vault's
-- own code (`vault_of`) fills it, over the third-party ciphers (`Primitives`, and SM2 in `Parts`)
-- and one nonce for all that are drawn. That a key which is read from the table is then kept in
-- memory is shown in Client/Keys and not in a `Vault`. A round calls the server through `ServerClient`, which
-- `api_of` fills with the server's own functions. The merge itself works on syntax trees
-- without white space: a scalar or an array by its bytes, an object by its fields.
--
-- What runs concurrently is an explicit order of steps: the two readings of a pull may see
-- different tables (`pull_across`), two pushes may both check before either writes (`race`), and so
-- may two requests for registration (`submit_across`), the
-- server changes between two requests of a client, and the hub's operations, with the sends and
-- closes of a disconnection apart, are actions of a run. Loops run over a list, but for the
-- merge, which recurses into objects with the nesting of our side, plus one, as fuel.
--
-- Not modelled: HTTP, SQL text, timers and goroutines beyond these orders; ciphers, hashes and
-- curves, which are third-party code, those of Authn being its parameter `Crypto`; the key file and
-- the unlocking of the vault, which call them and the file system; the lists that administrators
-- read, and the user interface.
pub mod Administration
pub mod Authn
pub mod Client
pub mod Crypto
pub mod Merge
pub mod Middleware
pub mod Prelude
pub mod Proto
pub mod Registration
pub mod Scenarios
pub mod Store
pub mod Sync
