-- ===== src/Lib.antt =====
-- Randevu lets the agents of two or more parties talk in a room through a relay that sees ciphertext
-- only. This library models the relay and the cryptographic core, in the order of the parts:
--
-- Base holds the shared names and lemmas: numbers, lists, a text as its list of UTF-16 code units
-- (Str), decimals, padStart, join, split and trim, an outcome that returns or throws, and
-- (Base.Numbered) the reading of numbered messages behind a cursor, which the relay's session and
-- the hosted room share; Relay.Store.Ranged reads them from a store's range of keys. Base.Unicode
-- says which texts TextEncoder and TextDecoder keep.
-- Noble is a record of the third-party functions (@noble/*, @scure/base). Nothing of them is
-- defined; a theorem that needs documented behaviour takes it as a hypothesis (HexLaws, Digests,
-- SignatureLaws). Examples.Toy has concrete functions for which these hold.
-- Core.Crypto is packages/core/src/crypto.ts, did.ts and reqauth.ts. Core.Sas is sas.ts, Core.Invite
-- invite.ts. Core.Message is message.ts, with Binding for the signed text and Chain for the running
-- hash. Core.GroupKey is groupkey.ts, and Core.Transcript transcript.ts; Walking, Members, Agreed and
-- Commitment are about the parts of verifyTranscript, Soundness and Completeness about the verdict.
-- Core.Kinds is kinds.ts: the table of room kinds, how roles are assigned, and the context text.
-- Core.Waiters is waiters.ts: waiting, waking and timing out as steps, and longPoll as a loop on fuel
-- (poll_loop) over a host (Poll): its clock, its waiters, the caller's read, and what it does while a
-- waiter is parked, such as other requests, which is an argument.
-- Relay.Store is the key-value store of apps/relay/src/store.ts; Store V is the Map's entries in
-- insertion order. Relay.Keys is KEY of apps/relay/src/session.ts.
-- Relay.Session is the class Session of that file: a method is a function from the store to its
-- result and the store it leaves (init, join, post_message, get_messages, post_keys, get_key,
-- status for init, join, postMessage, getMessages, postKeys, getKey, status). Room is what a
-- session promises, without a store; Refines says when a store holds a room; Posting, Opening,
-- Joining and Keying relate the calls, and History whole rows of requests.
-- Relay.Dispatch is apps/relay/src/dispatch.ts: authentication and routing. It reads the session's
-- store, and is read against the session's history in Dispatch.Steps.
--
-- Mcp.Room is the hosted, plaintext room of apps/mcp/src/room.ts: opening, joining, sending,
-- receiving, status and waiting over the cells of its storage; RoomHost adds the waiters and the
-- clock that a long poll runs on. Mcp.Room.Log says when the cells hold a log, whose keys have nine
-- digits, so that it has fewer than 10 ^ 9 messages (room_limit).
-- Mcp.Texts and Mcp.Tools are the handlers of the tools in apps/mcp/src/index.ts, over the rooms by
-- their codes, with the texts of open_room in Mcp.Invitations; Mcp.Tools.Said is about rows of
-- calls. Mcp.Pages is apps/mcp/src/lib.ts: a template is a row of pieces, its own text and the values
-- it escapes (Piece), and render writes it.
--
-- Core.Invite.Link is the join links of invite.ts, with its regular expressions as matchers in
-- Core.Invite.Pattern; encodeURIComponent and decodeURIComponent are a record (Uri).
--
-- Core.SealedBox is sealedbox.ts, and the wrapping of group keys in groupkey.ts.
--
-- Local is the class RandevuLocal of packages/local/src/server.ts. A method is an Action: it changes
-- the object and the world of its relay, and returns or throws, with what was changed before a throw
-- kept (Local.Action). Local.Data is the object's state, Local.Api the interface of the relay it
-- calls, of whose answers a theorem assumes only what it takes as a hypothesis. Local.Keys is
-- createSession to ensureKeys, Local.Folding pull and receive, Local.Sending send and the calls
-- over it, Local.Export getStatus, exportTranscript and getSAS. Local.Folding.Session puts the
-- relay's own session behind the interface. Its random bytes are arguments (Randoms). A network failure is a throw.
--
-- Local.Rooming is openRoom and joinRoom: a Seat is the object with the fields of the room layer, and
-- the client that makeRelay builds is a function of its address. Local.Waiting is waitForMessage and
-- sendAndWait, on fuel; more rounds than milliseconds are enough where each long poll takes a tick of
-- the clock. Local.Issuing is the issuing of credentials and mandates, and settlement.ts. Local.Tools
-- is packages/local/src/mcp.ts.
--
-- Local.Keystore is packages/local/src/keystore.ts without the file.
--
-- Core.Credential is packages/core/src/credential.ts, and issueCredential and issueMandate of
-- packages/local/src/settlement.ts; a credential is a JSON object (Values).
-- Relay.Shell is apps/relay/src/session-do.ts, the session's host, over Relay.Dispatch and
-- Core.Waiters. Its long polls have at most 55 000 milliseconds, so that more rounds of fuel are enough
-- where each wait takes a tick of the clock or is followed by a read that finds messages.
--
-- Http.Client is packages/relay-client/src/index.ts; relay_client fills the interface Local.Api.
-- Http.Node is handle of packages/cli/src/node-relay.ts over a map of session stores. Http.Served
-- follows a signed request from the client through the relay to Relay.Dispatch. The parsed URL is a
-- record; that its path is the part of the client's path before the query is a hypothesis.
--
-- Calls are one at a time, as Durable Object storage serializes them; only a parked long poll lets
-- others run. Counters, limits, clocks and
-- query numbers are natural numbers. The random token and nonce, the clock and Number(text) are
-- arguments. A JSON body is read as each cast of the code reads it, and a transcript bundle has the
-- shape of its interface. Message keys are padded to 12 digits, so the orders of keys and numbers
-- agree below 10 ^ 12, which is the bound (seq_limit) on the messages of one session. decimal takes
-- its number as fuel, which is never used up, since each round divides by 10.
--
-- Not modelled: the file of the key store, the registration of MCP tools with their schemas and
-- descriptions, the sending of e-mails (a parameter of the tools), JSON.stringify, the routing of the
-- Worker, the reading of requests and the pages of the Node relay, the command line, and the apps in
-- other languages: they are input and output, or text.
pub mod Base
pub mod Noble
pub mod Core
pub mod Relay
pub mod Local
pub mod Http
pub mod Mcp
pub mod Examples
