-- ===== src/Client.antt =====
-- The client, src/client.cpp: state callbacks (child States), their counts (child Edges), and the
-- loops runIterate and run (child Loop).
pub mod States
pub mod Edges
pub mod Loop
pub mod Ending
