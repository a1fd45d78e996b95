-- ===== src/Lib.antt =====
-- A verification library for open62541pp, the C++ wrapper of the OPC UA library open62541.
--
-- The wrapper turns the callbacks, arrays and status codes of the C library into C++ functions,
-- containers and exceptions. Its own logic is modelled here; what the C library answers, and when
-- it calls back, are arguments of the definitions.
--
-- Parts, with the files that model them:
--   Status, Outcome      include/open62541pp/exception.hpp, detail/result_utils.hpp: status codes,
--                        exceptions as values, throwIfBad, tryInvoke.
--   Outcome.Catcher      detail/exceptioncatcher.hpp, services/detail/callbackadapter.hpp: how an
--                        exception of a callback crosses the C library and is thrown again.
--   Result               include/open62541pp/result.hpp: Result<T> and Result<void>.
--   Arrays               detail/types_handling.hpp: allocation, copying and release of arrays. A heap
--                        counts live arrays and live copies of elements.
--   Wrappers             include/open62541pp/wrapper.hpp: objects that own what their native value
--                        points to (Owned, Assign, Steps).
--   ContentFilter        src/ua_types.cpp: `!`, `&&` and `||` of event filters, with the 32-bit
--                        arithmetic on operand indexes. ContentFilter.Evaluation says what a filter
--                        means, ContentFilter.Copies when the copies of its elements succeed.
--   AccessControl        src/plugin/accesscontrol_default.cpp (Default, Admission),
--                        src/plugin/accesscontrol.cpp (Adapter, Table, FailClosed), and of
--                        src/server.cpp setAccessControl (Install, Policies, Ownership,
--                        Configuration) and the session registry (Sessions).
--   Map, ContextMap      std::map as an ordered list, and detail/contextmap.hpp on top of it.
--   Monitoring           src/services_monitoreditem.cpp, src/services_subscription.cpp,
--                        src/subscription.cpp, src/monitoreditem.cpp and the contexts in
--                        services/detail: how contexts of items are made, stored, called, marked stale
--                        and listed. They use ContextMap for storage and Outcome.Catcher for calls.
--   Client               src/client.cpp: state callbacks (States, Edges), runIterate and run (Loop,
--                        Ending).
--   Callbacks            src/callback.cpp: timed and repeated callbacks of clients and servers, on
--                        ContextMap (Once).
--   Server               src/server.cpp: run and stop in two threads, of which each call of the C library
--                        may fail (Lifecycle, Shutdown, Termination).
--   Server.Handles       src/server.cpp: Server objects that are constructed, moved and destroyed
--                        (Moves).
--   NodeContexts         src/server.cpp, src/services_nodemanagement.cpp, src/plugin/nodestore.cpp,
--                        detail/ptr.hpp: callbacks of nodes, their contexts on a heap, and how the C
--                        library calls them (Operations, Entry, Keys, Owned, Step, History, Served).
--   DataTypes            include/open62541pp/datatype.hpp: DataTypeBuilder (Order, Layout, Flags),
--                        and findDataType of src/datatype.cpp (Search).
--   Views                include/open62541pp/span.hpp: Span.
--   Bitmasks             include/open62541pp/bitmask.hpp: Bitmask, as a number (Bits) and as a set of
--                        flags (Flags).
--   NumericRanges        src/types.cpp: the text of a NumericRange (Reading).
--   Services             services/detail/response_handling.hpp (Responses), and browseAll of
--                        services/view.hpp with src/services_view.cpp (Browse). Nodes and
--                        attributes: src/services_nodemanagement.cpp, src/services_attribute.cpp,
--                        services/nodemanagement.hpp, services/detail/attribute_handler.hpp,
--                        services/attribute.hpp and node.hpp (Data, Nodes, Connection, Named, Remote,
--                        Attributes, NodeMethods). A Connection is what a Server and a Client have in
--                        common. Asynchronous requests: services/detail/client_service.hpp,
--                        async_transform.hpp, async_hook.hpp (Async).
--   Prelude              names of the libraries, Boolean tests, lists over native numbers.
--   Tests                concrete runs and examples.
--
-- State is passed explicitly: the fields of a record are the members of the class, and a function
-- returns the record after the call. A call that may throw has an `Outcome`: a value, an exception,
-- or undefined behaviour, which stands wherever the source would read or write out of bounds or
-- through a dangling pointer.
-- Function names are those of the source with underscores.
--
-- Loops are recursion on the list that they walk. The evaluation of a filter takes the number of its
-- elements as fuel, which is enough, as an operand of a valid filter stands behind its element. The
-- client's loop takes the iterations that the C library performs as a list, and has not ended when
-- the list is used up. browseAll takes the number of pages as fuel. The binary search takes the size
-- of the table, as each step leaves fewer types. A number of 32 bits is written with up to 10 digits,
-- which is enough for each. Threads of the server take turns in an explicit list.
--
-- Values of UA_STATUSCODE_* constants and of the state enumerators belong to the C library's headers:
-- Status.StatusCodes and Client.States.StateCodes are interfaces with the laws that are needed.
--
-- Not modelled: generated tables (ua/), the typed views on C structures (types.hpp), the
-- services that only fill in a request and pass it on (methods, history, subscriptions' settings), the
-- asynchronous variants of single services, logging, certificates and node set loading.
pub mod Prelude
pub mod Status
pub mod Outcome
pub mod Result
pub mod Arrays
pub mod Wrappers
pub mod ContentFilter
pub mod AccessControl
pub mod Map
pub mod ContextMap
pub mod Monitoring
pub mod Client
pub mod Callbacks
pub mod Server
pub mod NodeContexts
pub mod NumericRanges
pub mod DataTypes
pub mod Views
pub mod Bitmasks
pub mod Services
mod Tests
