-- ===== src/Lib.antt =====
-- The event-driven web examples: the chat with its page and service, the Comet support, and the
-- client scripts under eventdrivenweb/*/src/main/webapp/scripts/jquery, which the two applications
-- (atmosphere and dwr) ship in equal copies. The scripts are jQuery plugins that other authors wrote,
-- kept here as source; they are all the JavaScript of the repository but for jQuery and the
-- scripts inside pages. jQuery itself is not modelled: the functions of it that the scripts call are
-- parameters, the record `JQuery` of Common/Jq.antt with what jQuery documents of each, or plain
-- function arguments (`param`, `trim`, `val`).
-- Behind these stand the examples on data: the counters, and the repository of customers over JDBC.
--
-- Common and its children hold the shared names: Boolean tests, lists and dictionaries over the
-- native numbers, texts as lists of code units.
--
-- Hive models jquery.hive.js. Hive/Defs.antt has the private variables of `jQuery.Hive` as the record
-- `State`, and `create`, `destroy`, `get`, `send` and the handler of `_addMessageListener` as
-- functions over it, and `on_message` runs the handlers of all listeners of a worker; worker objects are threads with a reference into `objects`, where what changes
-- of them is kept. `log` is what the browser sees: started workers, posted messages, called
-- callbacks. `JSON.stringify` and `JSON.parse` are left out: messages travel as records.
-- Hive/Registry.antt, Hive/Create.antt and Hive/Messages.antt have the theorems.
--
-- Form models jquery.form.js: Form/Fields.antt has `$.fieldValue`, `fieldValue`, `formToArray`,
-- `formSerialize` and `fieldSerialize`; Form/Edits.antt `clearFields`, `enable`, `selected` and
-- `resetForm`; Form/Submit.antt `ajaxSubmit`, whose hooks may change the options, the form and the array of pairs; Form/Click.antt the handlers that `ajaxForm` binds;
-- Form/Upload.antt `fileUpload` and its callback `cb`, whose number of tries is the script's own, 50.
-- Form/Successful.antt, Values, Cleared, Clicked, Requests and Reports have the theorems. The text of
-- the response is not modelled.
--
-- Atmosphere models jquery.atmosphere.js. Atmosphere/Defs.antt has `jQuery.atmosphere` as the record
-- `State`: request objects and connections stand in lists and are named by their index, since
-- handlers keep them; the undeclared globals `abordingConnection` and `logLevel` are options, and
-- reading one that does not exist is the result `reference_error`. Atmosphere/Transport.antt has
-- `executeRequest`, its handlers and the other transports; Atmosphere/Publish.antt `subscribe`,
-- `publish`, the pushes and the timer. Which handler the browser calls, and when, is a step of the
-- relation `Step` in Atmosphere/Reach.antt, so calls come in any order. The theorems are in
-- Atmosphere/Reach.antt (with Limits, Steps and Handlers), Callbacks, Streams,
-- Bodies and Globals. Not modelled there: response headers, `unload`, `kill_load_bar` and the log methods.
--
-- Pollen models jquery.hive.pollen.js, the library that a worker has. Pollen/Values.antt has the values
-- that its functions tell apart, with natural numbers; Pollen/Arrays.antt and Pollen/Lists.antt the
-- functions of `array`, Pollen/Evaluate.antt those of `evaluate`, Pollen/Strings.antt those of `string`,
-- Pollen/Ajax.antt the requests and `storage`, Pollen/Query.antt the functions that a query is turned
-- into calls of, and Pollen/Worker.antt `send` and `receive`, on the messages of Hive/Defs.antt.
-- `JSON.stringify`, `isNaN` and `encodeURIComponent` are parameters. Pollen/Unique.antt, Combined,
-- Trimmed, Slices, Distinct, Compacted, Requests and Relay have the theorems; Relay joins worker and page. Not modelled
-- there: `date`, `func.bind`, `isRegExp`, `isJson`, `sortBy`, `grep` with a function, the states of
-- the request object, and the parser of queries, which evaluates a text.
--
-- Chat models the chat of the dwr application, the repository's own code: the service, the adapter
-- behind its channels, and the page. Chat/Adapter.antt has `handleMessage` of
-- eventdrivenweb/dwr/src/main/java/org/springframework/integration/dwr/AsyncHttpRequestHandlingMessageAdapter.java,
-- with what DWR and Spring answer, and where DWR throws, as the record `Dwr`; Chat/Server.antt the operations of
-- eventdrivenweb/dwr/src/main/java/org/springsource/examples/eventdrivenweb/example/Chat.java on the record
-- `Room`, with the map of users as an association list and the function calls on pages as effects;
-- Chat/Page.antt the script of eventdrivenweb/dwr/src/main/webapp/dwr.html, a function for each of its
-- functions and button handlers, on the variables of the page, with what `$('#' + name)` finds as the record `Selector`. Chat/Users.antt, History, Delivery,
-- Roster, Clicks, Transcript and Reach have the theorems; the relation `Step` of Chat/Reach.antt is what
-- pages may do to the room, in any order.
--
-- Comet models the support for suspended requests in
-- eventdrivenweb/atmosphere/src/main/java/org/springframework/integration/comet: Comet/Adapter.antt the
-- queue and `handleMessage` of AsyncHttpRequestHandlingMessageAdapter.java on the record `Adapter`,
-- Comet/Requests.antt its `handleRequest`, `subscribe` and `publish`, Comet/Broadcaster.antt `broadcast` of
-- HttpMessageBroadcaster.java, and Comet/Mapper.antt the reading and writing of messages in
-- HttpMessageMapper.java. Media types, contents and converters are parameters, and so is what
-- Atmosphere answers. Comet/Queue.antt, Batches, Replies, Delivery and Posts have the theorems. Not
-- modelled there: the headers that are copied, the start and stop of the consumer, logging, and
-- threads that interleave within one call.
--
-- Counter models the counters of counter/src/main/java/com/joshlong/examples/data/counter. Counter/Stores.antt
-- has the interface Counter.java as a record of operations over a state, RedisCounter.java as an
-- instance whose state is a map from keys to texts, MySqlCounter.java as one whose state is a map from
-- index keys to whole numbers, which its SQL statements change, and `exercise` of Main.java. What MySQL and
-- its driver leave open is the record `Mysql`: which names the index takes for the same, what the column keeps of
-- one, and what happens to a sum or to a result that is not of the type `int`.
-- Counter/Decimal.antt has the conversions between an `int` and its text; Common/Int.antt the 32 bits
-- of an `int`. Counter/Tally.antt says what is counted, and Counter/Races.antt has two threads in
-- `modifyKey`, a command of Redis at a time. Counter/Redis.antt, Mysql, Races and
-- Exercise have the theorems, Counter/Readback.antt lemmas on the two conversions, Counter/Statements.antt
-- on the rows of the table.
--
-- Crm models
-- entity-basics/src/main/java/org/springsource/examples/crm/services/jdbc/repositories/RawJdbcCustomerRepository.java.
-- Crm/Exceptions.antt has methods that return or throw and keep what they wrote, Crm/Driver.antt what is
-- called in java.sql, as the record `Driver` of which each call answers or throws, and Crm/Raw.antt
-- the methods over the record `Frame`: a method's variables, the two thread locals and the world behind the
-- driver. Crm/Pool.antt and Transactions.antt have, as hypotheses, how a data source counts its connections,
-- and what a driver does to transactions. Crm/Keeps.antt, Ends.antt and
-- Triples.antt have the rules by which blocks are proved, Crm/Opening.antt, Statements, Nested and
-- Settling the lemmas on single blocks, Crm/Balance.antt, Commits and Errors the theorems. Not
-- modelled there: the log, and result sets without an end.
--
-- The loops are recursions on the collection, or on the rounds that are left. `slice` of Pollen takes
-- fuel, since its step may be 0; with a positive step, one round more than the list has elements is
-- enough. The digits of n in Counter/Decimal.antt take n + 1 rounds, which is enough to divide it by ten.
-- Not modelled: jquery-1.4.2.js, the Java applications other than those named here, JdbcTemplate and JPA in
-- entity-basics, and the pages other than dwr.html.
pub mod Chat
pub mod Comet
pub mod Common
pub mod Counter
pub mod Crm
pub mod Atmosphere
pub mod Form
pub mod Hive
pub mod Pollen
