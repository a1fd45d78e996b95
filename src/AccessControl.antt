-- ===== src/AccessControl.antt =====
-- Access control: src/plugin/accesscontrol_default.cpp (child Default), the adapter of
-- src/plugin/accesscontrol.cpp (children Adapter, Table), and of src/server.cpp setAccessControl
-- (child Install) and the session registry (child Sessions). The other children are proofs.
pub mod Default
pub mod Admission
pub mod Adapter
pub mod Table
pub mod FailClosed
pub mod Install
pub mod Policies
pub mod Ownership
pub mod Configuration
pub mod Sessions
