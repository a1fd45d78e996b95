-- ===== src/Services.antt =====
-- Services: how a response with one result is read (child Responses), the loop of browseAll (child
-- Browse), the management of nodes (children Data, Nodes, Connection, Named and Remote) and the attributes of
-- nodes (child Attributes).
pub mod Responses
pub mod Browse
pub mod Data
pub mod Nodes
pub mod Connection
pub mod Named
pub mod NodeMethods
pub mod Attributes
pub mod Remote
pub mod Async
