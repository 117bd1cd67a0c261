-- ===== src/Lib.antt =====
-- ClawMux connects chat platforms to OpenClaw instances. This library models the parts that carry a
-- message, in shallow embedding.
--
-- How the parts meet: a chat event enters the router, which finds the user's instance in the mapping
-- storage, sends the text through the connection manager, and shows the answer. The manager keeps
-- one client to each user's instance. The client reads the gateway's frames, and its aggregator
-- picks the answer among the final events of a burst.
--
-- Base: texts as lists of code points, Python's dictionaries, and a monad for code that raises.
-- Aggregator (src/utils/claw_aggregator.py): `ClawAggregator`. A sleeping `_finalize_later` task is
-- an entry of `timers`; `fire` is the end of its sleep.
-- Instance, Mapping (src/services/mapping.py, over the tables of src/core/models.py): `Mapping.Storage`
-- has the operations of `MappingStorage`, `Mapping.Bind` the transaction of `bind_user_instance`, and
-- `Mapping.Replicas` several processes with one database.
-- OpenClaw (src/services/openclaw_client.py): `OpenClawClient`. `Dispatch` is `_dispatch`; in `Actions`
-- the client is a machine whose actions run from one `await` to the next; `Connect` is `connect`.
-- Manager (src/services/ws_manager.py): `WSConnectionManager`, for operations of a user that do not
-- overlap; `Locks` is the user's lock, for those that do. Clients and guardian tasks are numbers;
-- how connects and sends end are lists in the state.
-- Router (src/router.py, `ProviderRegistry` of src/services/chat_adapter.py): `Event` is `handle_event`
-- with the Dify fallback, `Channels` the proactive and triggered messages, `Stream` is `StreamUpdater`
-- with its lock.
-- Each call that leaves the router is logged, and `Env` says how it ends.
-- Files (src/services/file_manager.py): the helpers on paths and names, and in `Transfer` `FileManager`.
-- Web: the values of JSON, `urlparse` and `uuid.UUID` of Python's library, as the program uses them.
-- Crypto (src/core/crypto.py): the encrypted columns, over an abstract Fernet.
-- Provisioner (src/services/provisioner.py): `provision_instance` with both drivers, the checks of
-- what they answer, the workspace's template, and the binding of `Mapping.Bind`.
-- Telegram (src/services/telegram.py): `Poll` is the loop of polls, `Update` the parsing of an update,
-- `Send` what the bot sends.
-- Teams (src/services/teams_auth.py, src/services/teams.py): `Auth` has the checks of a request,
-- `Adapter` the adapter.
-- Slack (src/services/slack.py): `Events` is `_handle_events_api`, `Socket` the loop of sessions, `Send` what
-- is sent.
-- Mattermost (src/services/mattermost.py): `Posts` is `_handle_ws_event`, `Socket` the connections,
-- `Send` the HTTP API.
-- VkTeams (src/services/vk_teams.py): `Message` is `_handle_event`, `Poll` the loop of polls, `Send` what
-- is sent.
-- Dify (src/services/dify_client.py): `Stream` is `_stream_chat`, `Chat` the client.
-- Api (src/api): `Control` has `trigger`, `notify` and `reload_mappings`, which use the storage and start
-- calls of the router; `Action`, `Bitrix` and `Teams` are the webhooks.
--
-- Time is a number of ticks that an operation is given. Loops are structural recursion on the
-- attempts left or on a list, so no fuel is needed. Numbers are unbounded, as in Python.
--
-- Not modelled: the signing of the handshake, logging and metrics other than the router's counters,
-- the adapter of Bitrix, the configuration, and the start-up. The router takes the adapters' answers
-- from `Env`. Chat platforms, the gateway and the file system are parameters, and so are Fernet, PyJWT
-- and HTTP.
pub mod Base
pub mod Aggregator
pub mod Instance
pub mod OpenClaw
pub mod Manager
pub mod Mapping
pub mod Files
pub mod Router
pub mod Web
pub mod Crypto
pub mod Provisioner
pub mod Telegram
pub mod Teams
pub mod Slack
pub mod Mattermost
pub mod VkTeams
pub mod Dify
pub mod Api
